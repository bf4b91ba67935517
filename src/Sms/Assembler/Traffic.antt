-- ===== src/Sms/Assembler/Traffic.antt =====
-- internal/sms/assembler.go: the parts of one message among any other calls.
use gsm2mqtt.Base.{
  ℕ, suc, ◌+◌, ◌≤◌, ◌<◌, Bool, true, false, Option, none, some, List, [], ◌∷◌, ltb, ◌==◌, ==_iff,
  length, text_eq, text_eq_iff, Bool-cases, Option-cases, ◌≡◌, ◌≢◌, ◌↔◌, refl, sym, ap, ap₂, ◌∙◌,
  inl, inr, subst, arith,
}
use gsm2mqtt.Base.Maps.{
  lookup, insert, keep, lookup-delete_same, lookup-delete_other, lookup-insert_same,
  lookup-insert_other, lookup-keep-some, lookup-keep-none,
}
use gsm2mqtt.Sms.Assembler.{
  IncomingPart, AssembledSms, PartialMessage, FlushedMessage, Key, key_eq, Assembler,
  cleanup_expired, add_late, pending_or_new, add_pending, key_of, add_multipart, flush, joined,
}
use gsm2mqtt.Sms.Assembler.Parts.{
  Message, message_key, IsPartOf, IsWhole, has, Holds, Holds-insert, joined_all,
}

pub key_eq_iff : (a b : Key) → (key_eq a b ≡ true) ↔ (a ≡ b)
key_eq_iff a b = (
  λ h. elim (Bool-cases (text_eq a.0 b.0)) [
    | inl e ↦
        let n = (rw e at h) in
        ap₂ (λ (s : List ℕ) (r : ℕ). (s, r)) ((text_eq_iff a.0 b.0).0 e) ((==_iff a.1 b.1).0 n)
    | inr e ↦ let n = (rw e at h) in cc
  ],
  λ e. rw (sym e, (text_eq_iff a.0 a.0).1 refl, (==_iff a.1 a.1).1 refl) refl,
)

-- What the assembler knows of the message under one key is the same.
abbrev pub Same : Key → Assembler → Assembler → Type 0
Same key a b =
    (lookup key_eq key b.pending ≡ lookup key_eq key a.pending)
    × (lookup key_eq key b.flushed ≡ lookup key_eq key a.flushed)
    × (b.ttl ≡ a.ttl)

module _ (key other : Key) (apart : other ≢ key) where
  add_late-Same :
      (part : IncomingPart) (fm : FlushedMessage) (a : Assembler)
      → Same key a (add_late other part fm a).1
  unfolding add_late
  add_late-Same part fm a =
      elim (Bool-cases
        (length (insert ◌==◌ part.part_number part.text fm.parts) == fm.total_parts)) [
          | inl e ↦
              rw e (refl, lookup-delete_other key_eq key_eq_iff key other a.flushed apart, refl)
          | inr e ↦
              rw e (refl, lookup-insert_other key_eq key_eq_iff key other _ a.flushed apart, refl)
        ]

  add_pending-Same :
      (part : IncomingPart) (pm : PartialMessage) (a : Assembler)
      → Same key a (add_pending other part pm a).1
  unfolding add_pending
  add_pending-Same part pm a =
      elim (Bool-cases
        (length (insert ◌==◌ part.part_number part.text pm.parts) == pm.total_parts)) [
          | inl e ↦
              rw e (lookup-delete_other key_eq key_eq_iff key other a.pending apart, refl, refl)
          | inr e ↦
              rw e (lookup-insert_other key_eq key_eq_iff key other _ a.pending apart, refl, refl)
        ]

  pub flush-Same :
      (now : ℕ) (o : Option PartialMessage) (a : Assembler) → Same key a (flush now other o a).1
  unfolding flush
  flush-Same now none a = (refl, refl, refl)
  flush-Same now (some pm) a = (
    lookup-delete_other key_eq key_eq_iff key other a.pending apart,
    lookup-insert_other key_eq key_eq_iff key other _ a.flushed apart,
    refl,
  )

pub add_multipart-Same :
    (key : Key) (now : ℕ) (part : IncomingPart) (a : Assembler) (o : Option FlushedMessage)
    → key_of part ≢ key
    → Same key a (add_multipart now part a o).1
unfolding add_multipart
add_multipart-Same key now part a none apart = add_pending-Same key (key_of part) apart part _ a
add_multipart-Same key now part a (some fm) apart = add_late-Same key (key_of part) apart part fm a

module _ (msg : Message) (start ttl : ℕ) where
  -- A pending message that holds the parts seen, from `start` on.
  abbrev pub Gathered : List ℕ → PartialMessage → Type 0
  Gathered seen pm =
      (pm.from ≡ msg.from)
      × (pm.total_parts ≡ length msg.texts)
      × Holds msg seen pm.parts
      × (start ≤ pm.created_at)

  abbrev pub Pending : List ℕ → Option PartialMessage → Type 0
  Pending seen none = seen ≡ []
  Pending seen (some pm) = Gathered seen pm

  abbrev pub Collecting : List ℕ → Assembler → Type 0
  Collecting seen a =
      Pending seen (lookup key_eq (message_key msg) a.pending)
      × (lookup key_eq (message_key msg) a.flushed ≡ none)
      × (a.ttl ≡ ttl)

  pub Collecting-Same :
      (seen : List ℕ) (a b : Assembler)
      → Same (message_key msg) a b
      → Collecting seen a
      → Collecting seen b
  Collecting-Same seen a b same c =
      (subst (Pending seen) (sym same.0) c.0, same.1 ∙ c.1, same.2 ∙ c.2)

  keep-Pending :
      (seen : List ℕ) (p : PartialMessage → Bool) (m : List (Key × PartialMessage))
      → ((pm : PartialMessage) → start ≤ pm.created_at → p pm ≡ true)
      → Pending seen (lookup key_eq (message_key msg) m)
      → Pending seen (lookup key_eq (message_key msg) (keep p m))
  keep-Pending seen p m passes h = elim (Option-cases (lookup key_eq (message_key msg) m)) [
    | inl e ↦ rw (lookup-keep-none key_eq key_eq_iff p (message_key msg) m e) (rw e at h)
    | inr found ↦
        let g : Gathered seen found.0 = (rw found.1 at h) in
        rw
          (lookup-keep-some key_eq key_eq_iff p (message_key msg) found.0 m found.1
            (passes found.0 g.3))
          g
  ]

  -- Within the time that parts are kept, the expiry leaves the message alone.
  abbrev pub IsInTime : ℕ → Type 0
  IsInTime now = (start ≤ now) × ((0 < ttl) → now ≤ start + ttl)

  pub cleanup-Collecting :
      (seen : List ℕ) (now : ℕ) (a : Assembler)
      → IsInTime now
      → Collecting seen a
      → Collecting seen (cleanup_expired now a)
  unfolding cleanup_expired
  cleanup-Collecting seen now a fresh c = (
    elim (Bool-cases (ltb 0 a.ttl)) [
      | inl e ↦
          let bound : now ≤ start + ttl = fresh.1 (ground (arith, e, c.2)) in
          rw e (keep-Pending seen _ a.pending (λ pm h. ground (arith, h, bound, c.2)) c.0)
      | inr e ↦ rw e c.0
    ],
    lookup-keep-none key_eq key_eq_iff _ (message_key msg) a.flushed c.1,
    c.2,
  )

  pub pending_or_new-Gathered :
      (seen : List ℕ) (now : ℕ) (part : IncomingPart) (o : Option PartialMessage)
      → start ≤ now
      → key_of part ≡ (message_key msg)
      → IsPartOf msg part
      → Pending seen o
      → Gathered seen (pending_or_new now part o)
  pending_or_new-Gathered seen now part none h k p e =
      (ap (λ (t : Key). t.0) k, p.1, rw e (refl, λ i. refl), h)
  pending_or_new-Gathered seen now part (some pm) h k p g = g

  module _ (seen : List ℕ) (part : IncomingPart) (pm : PartialMessage) (a : Assembler)
      (own : key_of part ≡ (message_key msg)) (p : IsPartOf msg part) (g : Gathered seen pm)
      (fresh : has part.part_number seen ≡ false) (c : Collecting seen a) where
    inserted : Holds msg (part.part_number ∷ seen) (insert ◌==◌ part.part_number part.text pm.parts)
    inserted = rw (p.4) (Holds-insert msg seen pm.parts part.part_number fresh g.2)

    -- One part of several that are missing.
    pub add_more :
        suc (length seen) < length msg.texts
        → ((add_pending (message_key msg) part pm a).0 ≡ none)
          × Collecting (part.part_number ∷ seen) (add_pending (message_key msg) part pm a).1
    unfolding add_pending
    add_more few =
        let open_yet : (length (insert ◌==◌ part.part_number part.text pm.parts) == pm.total_parts)
            ≡ false =
          ground (arith, inserted.0, g.1, few) in
        rw open_yet (
          refl,
          (
            rw (lookup-insert_same key_eq key_eq_iff (message_key msg) _ a.pending)
                (g.0, g.1, inserted, g.3),
            c.1,
            c.2,
          ),
        )

    -- The last part that is missing.
    pub add_last :
        suc (length seen) ≡ length msg.texts
        → ((i : ℕ) → 1 ≤ i → i ≤ length msg.texts → has i (part.part_number ∷ seen) ≡ true)
        → ((m : AssembledSms) × ((add_pending (message_key msg) part pm a).0 ≡ some m)
            × IsWhole msg m)
          × Collecting [] (add_pending (message_key msg) part pm a).1
    unfolding add_pending
    add_last full all =
        let closed : (length (insert ◌==◌ part.part_number part.text pm.parts) == pm.total_parts)
            ≡ true =
          ground (arith, inserted.0, g.1, full) in
        rw closed (
          (
            _,
            refl,
            (
              g.0,
              ap (joined _ 1) g.1 ∙ joined_all msg (part.part_number ∷ seen) _ inserted all,
              g.1,
              refl,
              refl,
            ),
          ),
          (rw (lookup-delete_same key_eq key_eq_iff (message_key msg) a.pending) refl, c.1, c.2),
        )
