-- ===== src/Services/Sms/Urc/Lines.antt =====
-- internal/services/sms_urc.go: a report whose PDU stands on the line behind it.
use gsm2mqtt.Base.{ℕ, Bool, true, false, not, ◌&&◌, List, [], ◌∷◌, ◌≡◌, refl, arith}
use gsm2mqtt.Base.Text.{codes, is_empty, has_prefix, trim_space}
use gsm2mqtt.Base.Search.{has_prefix_iff}
use gsm2mqtt.Pdu.Types.{Timestamp}
use gsm2mqtt.Services.Sms.{SmsService}
use gsm2mqtt.Services.Sms.Urc.{
  is_hex_pdu, extract_last_hex_token, decode_and_dispatch_pdu, decode_and_dispatch_report,
  handle_incoming_sms_urc, handle_delivery_report_urc, handle_continued_urc, handle_urc,
}

-- A line of hexadecimal digits has no prefix that starts with a plus.
has_prefix-hex : (t p : List ℕ) → is_hex_pdu t ≡ true → has_prefix t (b'+' ∷ p) ≡ false
unfolding is_hex_pdu
has_prefix-hex [] p h = refl
has_prefix-hex (r ∷ t) p h = ground (arith, h)

and_false : (b : Bool) → (b && false) ≡ false
and_false true = refl
and_false false = refl

-- The state that a line which only announces a PDU leaves, and no effects.
module _ (instant : Timestamp → ℕ) (now : ℕ) (clock : Timestamp) where
  handle_urc-hex :
      (line : List ℕ) (s : SmsService)
      → is_hex_pdu (trim_space line) ≡ true
      → handle_urc instant now clock line s
        ≡ handle_continued_urc instant now clock (trim_space line) s
  unfolding handle_urc
  handle_urc-hex line s h =
      rw
        (
          has_prefix-hex (trim_space line) (codes "CMTI:") h,
          has_prefix-hex (trim_space line) (codes "CMT:") h,
          has_prefix-hex (trim_space line) (codes "CDS:") h,
        )
        refl

  handle_urc-cmt :
      (header : List ℕ) (s : SmsService)
      → has_prefix (trim_space header) (codes "+CMT:") ≡ true
      → is_hex_pdu (extract_last_hex_token (trim_space header)) ≡ false
      → handle_urc instant now clock header s ≡ ([], record s { expecting_cmt = true })
  unfolding handle_urc handle_incoming_sms_urc
  handle_urc-cmt header s cmt no_pdu =
      let other : has_prefix (trim_space header) (codes "+CMTI:") ≡ false =
        rw ((has_prefix_iff (trim_space header) (codes "+CMT:")).0 cmt).1 refl in
      rw
        (
          other,
          cmt,
          no_pdu,
          and_false (not (is_empty (extract_last_hex_token (trim_space header)))),
        )
        refl

  handle_urc-cds :
      (header : List ℕ) (s : SmsService)
      → has_prefix (trim_space header) (codes "+CDS:") ≡ true
      → is_hex_pdu (extract_last_hex_token (trim_space header)) ≡ false
      → handle_urc instant now clock header s ≡ ([], record s { expecting_cds = true })
  unfolding handle_urc handle_delivery_report_urc
  handle_urc-cds header s cds no_pdu =
      let starts = ((has_prefix_iff (trim_space header) (codes "+CDS:")).0 cds).1 in
      let cmti : has_prefix (trim_space header) (codes "+CMTI:") ≡ false = rw starts refl in
      let cmt : has_prefix (trim_space header) (codes "+CMT:") ≡ false = rw starts refl in
      rw
        (
          cmti,
          cmt,
          cds,
          no_pdu,
          and_false (not (is_empty (extract_last_hex_token (trim_space header)))),
        )
        refl

  -- A line `+CMT:` whose last field is no PDU has no effect by itself. If the next line is a PDU, it is
  -- taken as an incoming message, once: behind it the service expects no PDU any more. The same holds
  -- of `+CDS:` and a delivery report, where no message is expected already.
  pub handle_urc-handle_urc :
      (header line : List ℕ) (s : SmsService)
      → is_hex_pdu (extract_last_hex_token (trim_space header)) ≡ false
      → is_hex_pdu (trim_space line) ≡ true
      → let first = handle_urc instant now clock header s in
        let second = handle_urc instant now clock line first.1 in
        let quiet = record s { expecting_cmt = false; expecting_cds = false } in
        (has_prefix (trim_space header) (codes "+CMT:") ≡ true
          → (first.0 ≡ [])
            × (second ≡ decode_and_dispatch_pdu instant now clock (trim_space line) quiet))
        × (has_prefix (trim_space header) (codes "+CDS:") ≡ true
            → s.expecting_cmt ≡ false
            → (first.0 ≡ []) × (second ≡ decode_and_dispatch_report clock (trim_space line) quiet))
  unfolding handle_continued_urc
  handle_urc-handle_urc header line s no_pdu pdu = (
    λ cmt. (
      rw (handle_urc-cmt header s cmt no_pdu) refl,
      rw
          (
            handle_urc-cmt header s cmt no_pdu,
            handle_urc-hex line (record s { expecting_cmt = true }) pdu,
            pdu,
          )
          refl,
    ),
    λ cds free. (
      rw (handle_urc-cds header s cds no_pdu) refl,
      rw
          (
            handle_urc-cds header s cds no_pdu,
            handle_urc-hex line (record s { expecting_cds = true }) pdu,
            pdu,
            free,
          )
          refl,
    ),
  )
