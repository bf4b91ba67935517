-- ===== src/Sms/Assembler/Late.antt =====
-- internal/sms/assembler.go: the last part, when it comes after the timeout.
use gsm2mqtt.Base.{
  ℕ, suc, ◌+◌, ◌≤◌, true, false, not, ◌||◌, some, List, ◌∷◌, ◌++◌, ltb, leb, ◌==◌, length, concat,
  ◌≡◌, refl, ap, ◌∙◌, arith,
}
use gsm2mqtt.Base.Maps.{lookup, insert, lookup-keep-some, lookup-insert_same}
use gsm2mqtt.Base.Text.{codes}
use gsm2mqtt.Sms.Assembler.{
  IncomingPart, AssembledSms, PartialMessage, FlushedMessage, key_eq, Assembler, flushed_ttl,
  cleanup_expired, key_of, add_late, add_multipart, add_part, flush, flush_pending, joined,
}
use gsm2mqtt.Sms.Assembler.Parts.{
  Message, message_key, IsPartOf, has, Holds, Holds-insert, joined_all,
}
use gsm2mqtt.Sms.Assembler.Traffic.{key_eq_iff}

-- The whole message, as an update of what was handed on before.
abbrev pub IsWholeUpdate : Message → AssembledSms → Type 0
IsWholeUpdate msg m =
    (m.from ≡ msg.from)
    × (m.text ≡ codes "[Updated] " ++ concat msg.texts)
    × (m.segments ≡ length msg.texts)
    × (m.is_complete ≡ true)
    × (m.is_update ≡ true)

abbrev flushed_of : ℕ → PartialMessage → FlushedMessage
flushed_of now pm = record {
  from = pm.from;
  parts = pm.parts;
  total_parts = pm.total_parts;
  timestamp = pm.timestamp;
  encoding = pm.encoding;
  flushed_at = now;
}

module _ (msg : Message) (seen : List ℕ) (pm : PartialMessage) (part : IncomingPart) (a : Assembler)
    (now later : ℕ) (waits : lookup key_eq (message_key msg) a.pending ≡ some pm)
    (sender : pm.from ≡ msg.from) (total : pm.total_parts ≡ length msg.texts)
    (held : Holds msg seen pm.parts) (own : key_of part ≡ message_key msg) (p : IsPartOf msg part)
    (fresh : has part.part_number seen ≡ false) (full : suc (length seen) ≡ length msg.texts)
    (all : (i : ℕ) → 1 ≤ i → i ≤ length msg.texts → has i (part.part_number ∷ seen) ≡ true)
    (lo : 2 ≤ length msg.texts) (hi : length msg.texts ≤ 20)
    (in_time : later ≤ now + flushed_ttl a.ttl) where
  found :
      lookup key_eq
        (key_of part)
        (cleanup_expired later (flush_pending now (message_key msg) a).1).flushed
      ≡ some (flushed_of now pm)
  unfolding cleanup_expired flush_pending flush
  found =
      rw (own, waits)
        (lookup-keep-some key_eq key_eq_iff
          (λ (fm : FlushedMessage). not (ltb (fm.flushed_at + flushed_ttl a.ttl) later))
          (message_key msg) (flushed_of now pm)
          (insert key_eq (message_key msg) (flushed_of now pm) a.flushed)
          (lookup-insert_same key_eq key_eq_iff (message_key msg) (flushed_of now pm) a.flushed)
          (ground (arith, in_time)))

  inserted : Holds msg (part.part_number ∷ seen) (insert ◌==◌ part.part_number part.text pm.parts)
  inserted = rw (p.4) (Holds-insert msg seen pm.parts part.part_number fresh held)

  completes :
      (b : Assembler)
      → (m : AssembledSms) × ((add_late (key_of part) part (flushed_of now pm) b).0 ≡ some m)
        × IsWholeUpdate msg m
  unfolding add_late
  completes b =
      let closed : (length (insert ◌==◌ part.part_number part.text pm.parts) == pm.total_parts)
          ≡ true =
        ground (arith, inserted.0, total, full) in
      rw closed (
        _,
        refl,
        (
          sender,
          ap (λ (t : List ℕ). codes "[Updated] " ++ t)
              (ap (joined _ 1) total ∙ joined_all msg (part.part_number ∷ seen) _ inserted all),
          total,
          refl,
          refl,
        ),
      )

  -- Where all parts but one of a message of 2 to 20 parts wait and its timer runs out, the missing
  -- part, when it comes within the time that flushed messages are kept, gives the whole message as
  -- an update: all texts in the order of their numbers behind the mark "[Updated] ".
  pub add_part-flush_pending :
      (m : AssembledSms) × ((add_part later part (flush_pending now (message_key msg) a).1).0
        ≡ some m)
      × IsWholeUpdate msg m
  unfolding add_part add_multipart
  add_part-flush_pending =
      let single : (not part.is_multipart || leb part.total_parts 1) ≡ false =
        ground (arith, p, lo) in
      let bad : ((part.part_number == 0)
            || ltb part.total_parts part.part_number
            || ltb 20 part.total_parts)
          ≡ false =
        ground (arith, p, hi) in
      rw (single, bad, found)
        (completes (cleanup_expired later (flush_pending now (message_key msg) a).1))
