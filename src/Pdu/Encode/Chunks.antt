-- ===== src/Pdu/Encode/Chunks.antt =====
-- What splitChunks does with the runes: it keeps them all, in order, in chunks that fit a part.
use gsm2mqtt.Base.{
  ℕ, zero, suc, ◌+◌, ◌≤◌, ◌<◌, false, List, [], ◌∷◌, ◌++◌, ltb, if◌then◌else◌, length, take, drop,
  concat, All, ◌≡◌, refl, ap, ◌∙◌, arith, append_assoc, take-append-drop, length-take, length-drop,
}
use gsm2mqtt.Base.Text.{is_empty}
use gsm2mqtt.Pdu.Types.{Encoding, ucs2}
use gsm2mqtt.Pdu.Encode.{rune_units, count_units, split_plain, split_units, split_chunks}

count_units-append : (xs ys : List ℕ) → count_units (xs ++ ys) ≡ count_units xs + count_units ys
unfolding count_units
count_units-append [] ys = omega arith
count_units-append (x ∷ xs) ys = omega (arith, count_units-append xs ys)

count_units-snoc :
    (xs : List ℕ) (r : ℕ) → count_units (xs ++ r ∷ []) ≡ count_units xs + rune_units r
unfolding count_units
count_units-snoc xs r = omega (arith, count_units-append xs (r ∷ []))

concat-split_units :
    (runes current : List ℕ) (units m : ℕ)
    → concat (split_units runes current units m) ≡ current ++ runes
unfolding split_units
concat-split_units [] [] units m = refl
concat-split_units [] (c ∷ current) units m = refl
concat-split_units (r ∷ runes) current units m = ground (
  arith,
  concat-split_units runes (r ∷ []) (rune_units r) m,
  concat-split_units runes (current ++ r ∷ []) (units + rune_units r) m,
  append_assoc current (r ∷ []) runes,
)

-- A chunk of UCS-2 text: not empty, and of at most `m` code units.
abbrev pub FitsUnits : ℕ → List ℕ → Type 0
FitsUnits m chunk = (count_units chunk ≤ m) × (is_empty chunk ≡ false)

split_units-FitsUnits :
    (runes current : List ℕ) (units m : ℕ)
    → 2 ≤ m
    → count_units current ≡ units
    → units ≤ m
    → All (FitsUnits m) (split_units runes current units m)
unfolding split_units count_units
split_units-FitsUnits [] [] units m two e h = tt
split_units-FitsUnits [] (c ∷ current) units m two e h = ((omega arith, refl), tt)
split_units-FitsUnits (r ∷ runes) [] units m two e h =
    ground (arith, split_units-FitsUnits runes (r ∷ []) (units + rune_units r) m)
split_units-FitsUnits (r ∷ runes) (c ∷ current) units m two e h = ground (
  arith,
  split_units-FitsUnits runes (r ∷ []) (rune_units r) m,
  split_units-FitsUnits runes (c ∷ (current ++ r ∷ [])) (units + rune_units r) m,
  count_units-snoc (c ∷ current) r,
)

-- A chunk of other text: not empty, and of at most `m` runes.
abbrev pub FitsRunes : ℕ → List ℕ → Type 0
FitsRunes m chunk = (length chunk ≤ m) × (is_empty chunk ≡ false)

take-IsFilled : (n : ℕ) (r : ℕ) (s : List ℕ) → 0 < n → is_empty (take n (r ∷ s)) ≡ false
take-IsFilled zero r s h = absurd (omega arith)
take-IsFilled (suc n) r s h = refl

split_plain_lem :
    (fuel : ℕ) (runes : List ℕ) (m : ℕ)
    → length runes ≤ fuel
    → 0 < m
    → (concat (split_plain fuel runes m) ≡ runes) × All (FitsRunes m) (split_plain fuel runes m)
unfolding split_plain
split_plain_lem zero [] m h p = (refl, tt)
split_plain_lem zero (r ∷ runes) m h p = absurd (omega arith)
split_plain_lem (suc fuel) [] m h p = (refl, tt)
split_plain_lem (suc fuel) (r ∷ runes) m h p =
    let size : ℕ = if ltb (length (r ∷ runes)) m then length (r ∷ runes) else m in
    let bounds : (0 < size) × (size ≤ m) = ground arith in
    let rest =
      split_plain_lem fuel (drop size (r ∷ runes)) m (omega (arith, length-drop size (r ∷ runes)))
        p in
    (
      ap (λ (t : List ℕ). take size (r ∷ runes) ++ t) rest.0 ∙ take-append-drop size (r ∷ runes),
      ((omega (arith, length-take size (r ∷ runes)), take-IsFilled size r runes bounds.0), rest.1),
    )

-- The bound that a chunk of the encoding keeps.
abbrev pub Fits : Encoding → ℕ → List ℕ → Type 0
Fits ucs2 = FitsUnits
Fits _ = FitsRunes

-- For a limit of 2 or more, splitting keeps every rune in its order, and each chunk is not empty
-- and fits the limit: in UTF-16 code units for UCS-2, where no rune is cut in two, in runes else.
pub split_chunks_lem :
    (runes : List ℕ) (enc : Encoding) (m : ℕ)
    → 2 ≤ m
    → (concat (split_chunks runes enc m) ≡ runes) × All (Fits enc m) (split_chunks runes enc m)
unfolding split_chunks
split_chunks_lem runes ucs2 m h = (
  concat-split_units runes [] 0 m,
  split_units-FitsUnits runes [] 0 m h (unfold count_units in refl) (omega arith),
)
split_chunks_lem runes _ m h = split_plain_lem (length runes) runes m (omega arith) (omega arith)
