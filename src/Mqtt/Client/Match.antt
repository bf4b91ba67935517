-- ===== src/Mqtt/Client/Match.antt =====
-- internal/mqtt/client_tcp.go: matchTopic against the rule of topic filters.
use gsm2mqtt.Base.{
  ℕ, true, List, [], ◌∷◌, text_eq, text_eq_iff, Bool-cases, ◌≡◌, ◌↔◌, refl, sym, inl, inr, subst,
}
use gsm2mqtt.Base.Text.{codes, split_on}
use gsm2mqtt.Mqtt.Client.{match_parts, match_topic}

-- The rule: level by level, "+" stands for any one level, and "#" for any that are left.
pub data Matches : List (List ℕ) → List (List ℕ) → Type 0 where
  end_of_both : Matches [] []
  rest_of_levels : (ps ts : List (List ℕ)) → Matches (codes "#" ∷ ps) ts
  one_level :
      (ps ts : List (List ℕ)) (t : List ℕ) → Matches ps ts → Matches (codes "+" ∷ ps) (t ∷ ts)
  same_level : (ps ts : List (List ℕ)) (t : List ℕ) → Matches ps ts → Matches (t ∷ ps) (t ∷ ts)

text_eq_same : (s : List ℕ) → text_eq s s ≡ true
text_eq_same s = (text_eq_iff s s).1 refl

-- The loop follows the rule.
loop-Matches : (ps ts : List (List ℕ)) → match_parts ps ts ≡ true → Matches ps ts
unfolding match_parts
loop-Matches [] [] h = end_of_both
loop-Matches [] (t ∷ ts) h = cc
loop-Matches (p ∷ ps) [] h =
    subst (λ (q : List ℕ). Matches (q ∷ ps) []) (sym ((text_eq_iff p (codes "#")).0 h))
      (rest_of_levels ps [])
loop-Matches (p ∷ ps) (t ∷ ts) h = elim (Bool-cases (text_eq p (codes "#"))) [
  | inl a ↦
      subst (λ (q : List ℕ). Matches (q ∷ ps) (t ∷ ts)) (sym ((text_eq_iff p (codes "#")).0 a))
        (rest_of_levels ps (t ∷ ts))
  | inr a ↦ elim (Bool-cases (text_eq p (codes "+"))) [
    | inl b ↦
        subst (λ (q : List ℕ). Matches (q ∷ ps) (t ∷ ts)) (sym ((text_eq_iff p (codes "+")).0 b))
          (one_level ps ts t (loop-Matches ps ts (rw (a, b) at h)))
    | inr b ↦ elim (Bool-cases (text_eq p t)) [
      | inl c ↦
          subst (λ (q : List ℕ). Matches (q ∷ ps) (t ∷ ts)) (sym ((text_eq_iff p t).0 c))
            (same_level ps ts t (loop-Matches ps ts (rw (a, b, c) at h)))
      | inr c ↦ let off = (rw (a, b, c) at h) in cc
    ]
  ]
]

-- A level that matches itself, whichever test of the loop finds it.
match-same :
    (t : List ℕ) (ps ts : List (List ℕ))
    → match_parts ps ts ≡ true
    → match_parts (t ∷ ps) (t ∷ ts) ≡ true
unfolding match_parts
match-same t ps ts h = elim (Bool-cases (text_eq t (codes "#"))) [
  | inl a ↦ rw a refl
  | inr a ↦
      rw (a, text_eq_same t, h)
        (elim (Bool-cases (text_eq t (codes "+"))) [ inl b ↦ rw b refl | inr b ↦ rw b refl ])
]

match-plus :
    (t : List ℕ) (ps ts : List (List ℕ))
    → match_parts ps ts ≡ true
    → match_parts (codes "+" ∷ ps) (t ∷ ts) ≡ true
unfolding match_parts
match-plus t ps ts h = h

Matches-loop : {ps ts : List (List ℕ)} → Matches ps ts → match_parts ps ts ≡ true
Matches-loop end_of_both = unfold match_parts in refl
Matches-loop (rest_of_levels ps []) = unfold match_parts in refl
Matches-loop (rest_of_levels ps (t ∷ ts)) = unfold match_parts in refl
Matches-loop (one_level ps ts t m) = match-plus t ps ts (Matches-loop m)
Matches-loop (same_level ps ts t m) = match-same t ps ts (Matches-loop m)

match_same_parts : (ts : List (List ℕ)) → match_parts ts ts ≡ true
match_same_parts [] = unfold match_parts in refl
match_same_parts (t ∷ ts) = match-same t ts ts (match_same_parts ts)

-- matchTopic is the rule of topic filters on the levels between the slashes.
pub match_topic_iff :
    (pattern topic : List ℕ)
    → (match_topic pattern topic ≡ true) ↔ Matches (split_on b'/' pattern) (split_on b'/' topic)
unfolding match_topic
match_topic_iff pattern topic =
    let ps = split_on b'/' pattern in
    let ts = split_on b'/' topic in
    elim (Bool-cases (text_eq pattern topic)) [
      | inl a ↦
          let same : Matches ts ts = loop-Matches ts ts (match_same_parts ts) in
          rw a (
            λ h.
                subst (λ (q : List ℕ). Matches (split_on b'/' q) ts)
                  (sym ((text_eq_iff pattern topic).0 a)) same,
            λ m. refl,
          )
      | inr a ↦ elim (Bool-cases (text_eq pattern (codes "#"))) [
        | inl b ↦
            rw (a, b)
              (
                λ h.
                    subst (λ (q : List ℕ). Matches (split_on b'/' q) ts)
                      (sym ((text_eq_iff pattern (codes "#")).0 b)) (rest_of_levels [] ts),
                λ m. refl,
              )
        | inr b ↦ rw (a, b) (loop-Matches ps ts, λ m. Matches-loop m)
      ]
    ]
