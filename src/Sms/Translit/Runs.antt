-- ===== src/Sms/Translit/Runs.antt =====
-- internal/sms/translit.go: a Russian word.
use gsm2mqtt.Base.{ℕ, true, List, [], ◌∷◌, ◌≡◌, refl, inl, inr}
use gsm2mqtt.Base.Text.{codes}
use gsm2mqtt.Pdu.Alphabet.{is_gsm7, rune_to_gsm7_basic, rune_to_gsm7_ext, basic_index, ext_code}
use gsm2mqtt.Sms.Translit.{transliterate, translit_of, write_or}
use gsm2mqtt.Sms.Translit.Laws.{is_gsm7-transliterate, transliterate-gsm7}

-- The letters Shcha, i and an exclamation mark.
abbrev word : List ℕ
word = 0x0429 ∷ 0x0438 ∷ b'!' ∷ []

shchi : transliterate word ≡ codes "Shchi!"
unfolding transliterate translit_of write_or
shchi = refl

is_gsm7-transliterate_example : is_gsm7 (transliterate word) ≡ true
unfolding translit_of is_gsm7 rune_to_gsm7_basic rune_to_gsm7_ext basic_index ext_code
is_gsm7-transliterate_example =
    is_gsm7-transliterate word (inr (codes "Shch", refl), (inr (codes "i", refl), (inl refl, tt)))

transliterate-gsm7_example : transliterate (codes "ok {1}") ≡ codes "ok {1}"
unfolding is_gsm7 rune_to_gsm7_basic rune_to_gsm7_ext basic_index ext_code
transliterate-gsm7_example = transliterate-gsm7 (codes "ok {1}") refl
