-- ===== src/Sms/Assembler/Runs.antt =====
-- internal/sms/assembler.go: three parts out of order.
use gsm2mqtt.Base.{
  ℕ, zero, suc, ◌≤◌, true, false, Option, none, some, List, [], ◌∷◌, ◌==◌, if◌then◌else◌, ◌≡◌, refl,
  arith,
}
use gsm2mqtt.Base.Maps.{lookup}
use gsm2mqtt.Base.Text.{codes, decimal, decimal_with}
use gsm2mqtt.Sms.Assembler.{
  IncomingPart, AssembledSms, Assembler, cleanup_expired, add_pending, add_multipart, add_part,
  flush, flush_pending, joined, format_parts_summary, part_numbers, is_contiguous,
  build_available_text, available, has_any,
}
use gsm2mqtt.Sms.Assembler.Parts.{Message, OneWhole, has, part_text}
use gsm2mqtt.Sms.Assembler.Calls.{Call, arrive, time_out, answers}
use gsm2mqtt.Sms.Assembler.Delivery.{answers-OneWhole}
use gsm2mqtt.Sms.Assembler.Late.{IsWholeUpdate, add_part-flush_pending}

abbrev greeting : Message
greeting = record {
  from = codes "+49170";
  reference = 9;
  texts = codes "Good " ∷ codes "morning, " ∷ codes "world" ∷ [];
}

abbrev part_of : ℕ → ℕ → List ℕ → IncomingPart
part_of reference i text = record {
  from = codes "+49170";
  text = text;
  timestamp = 0;
  is_multipart = true;
  reference = reference;
  part_number = i;
  total_parts = 3;
  encoding = codes "gsm7";
}

-- The third, the first and the second part, with a part and a timeout of another message between.
abbrev mixed : List Call
mixed =
    arrive 10 (part_of 9 3 (codes "world"))
    ∷ arrive 20 (part_of 8 1 (codes "other"))
    ∷ arrive 30 (part_of 9 1 (codes "Good "))
    ∷ time_out 35 (codes "+49170", 8)
    ∷ arrive 40 (part_of 9 2 (codes "morning, "))
    ∷ []

abbrev fresh : Assembler
fresh = record { ttl = 100; timeout = 50; pending = []; flushed = [] }

in_order : (i : ℕ) → 1 ≤ i → i ≤ 3 → has i (3 ∷ 1 ∷ 2 ∷ []) ≡ true
in_order zero h k = absurd (omega (arith, h))
in_order (suc zero) h k = refl
in_order (suc (suc zero)) h k = refl
in_order (suc (suc (suc zero))) h k = refl
in_order (suc (suc (suc (suc i)))) h k = absurd (omega (arith, k))

answers-OneWhole_example : OneWhole greeting (answers (codes "+49170", 9) mixed fresh)
answers-OneWhole_example =
    answers-OneWhole greeting 10 mixed fresh (omega arith) (omega arith) refl refl
      (
        ((omega arith, λ _. omega arith), λ _. (refl, refl, omega arith, omega arith, refl)),
        (
          ((omega arith, λ _. omega arith), λ e. cc),
          (
            ((omega arith, λ _. omega arith), λ _. (refl, refl, omega arith, omega arith, refl)),
            (
              (λ e. cc),
              (
                (
                  (omega arith, λ _. omega arith),
                  λ _. (refl, refl, omega arith, omega arith, refl),
                ),
                tt,
              ),
            ),
          ),
        ),
      )
      ((refl, (refl, (refl, tt))), refl, in_order)

-- Two parts of three, as they are handed on at the timeout.
partial :
    (flush_pending 60
      (codes "+49170", 9)
      (add_part 20
        (part_of 9 3 (codes "world"))
        (add_part 10 (part_of 9 1 (codes "Good ")) fresh).1).1).0
    ≡ some (record {
      from = codes "+49170";
      text = codes "[Part 1,3/3]: Good  [...] world";
      timestamp = 0;
      segments = 2;
      encoding = codes "gsm7";
      is_complete = false;
      is_update = false;
    })
unfolding add_part add_multipart add_pending cleanup_expired flush flush_pending joined
    format_parts_summary part_numbers is_contiguous build_available_text available has_any decimal
    decimal_with
partial = refl

abbrev two_of_three : Assembler
two_of_three = record {
  ttl = 100;
  timeout = 50;
  pending =
      (
        (codes "+49170", 9),
        record {
          from = codes "+49170";
          parts = (3, codes "world") ∷ (1, codes "Good ") ∷ [];
          total_parts = 3;
          timestamp = 0;
          encoding = codes "gsm7";
          created_at = 10;
          timer = true;
        },
      )
      ∷ [];
  flushed = [];
}

two_parts :
    (i : ℕ)
    → lookup ◌==◌ i ((3, codes "world") ∷ (1, codes "Good ") ∷ [])
      ≡ (if has i (3 ∷ 1 ∷ []) then some (part_text greeting i) else none)
two_parts zero = refl
two_parts (suc zero) = refl
two_parts (suc (suc zero)) = refl
two_parts (suc (suc (suc zero))) = refl
two_parts (suc (suc (suc (suc i)))) = ground arith

in_order_late : (i : ℕ) → 1 ≤ i → i ≤ 3 → has i (2 ∷ 3 ∷ 1 ∷ []) ≡ true
in_order_late zero h k = absurd (omega (arith, h))
in_order_late (suc zero) h k = refl
in_order_late (suc (suc zero)) h k = refl
in_order_late (suc (suc (suc zero))) h k = refl
in_order_late (suc (suc (suc (suc i)))) h k = absurd (omega (arith, k))

add_part-flush_pending_example :
    (m : AssembledSms) × ((add_part 80
        (part_of 9 2 (codes "morning, "))
        (flush_pending 60 (codes "+49170", 9) two_of_three).1).0
      ≡ some m)
    × IsWholeUpdate greeting m
add_part-flush_pending_example =
    add_part-flush_pending greeting (3 ∷ 1 ∷ [])
      (record {
        from = codes "+49170";
        parts = (3, codes "world") ∷ (1, codes "Good ") ∷ [];
        total_parts = 3;
        timestamp = 0;
        encoding = codes "gsm7";
        created_at = 10;
        timer = true;
      })
      (part_of 9 2 (codes "morning, ")) two_of_three 60 80 refl refl refl (refl, two_parts) refl
      (refl, refl, omega arith, omega arith, refl) refl refl in_order_late (omega arith)
      (omega arith) (omega arith)

abbrev text_of_answer : Option AssembledSms → Option (List ℕ)
text_of_answer none = none
text_of_answer (some m) = some m.text

-- A part of another message with the same reference and a larger total, taken for the missing second
-- part of the first one.
crossed_totals :
    let first = record (part_of 9 1 (codes "A")) { total_parts = 2 } in
    text_of_answer (add_part 20 (part_of 9 3 (codes "Z")) (add_part 10 first fresh).1).0
    ≡ some (codes "A")
unfolding add_part add_multipart add_pending cleanup_expired joined
crossed_totals = refl
