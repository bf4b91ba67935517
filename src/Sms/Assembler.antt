-- ===== src/Sms/Assembler.antt =====
-- internal/sms/assembler.go: multipart messages put together. A time is a number of nanoseconds, the
-- clock's reading is an argument, and `now.Sub(t) > d` is `t + d < now`. The integers of a part come
-- from bytes and are natural numbers. The key `fmt.Sprintf("%s:%d", from, reference)` stays a pair:
-- the reference behind the last colon is a number, so that no two pairs print the same. A timer is a
-- flag; that it runs out is a call of flush_pending with its key. What the flush handler is called
-- with is returned.
pub mod Parts
pub mod Traffic
pub mod Calls
pub mod Delivery
pub mod Late
mod Runs
use gsm2mqtt.Base.{
  ℕ, zero, suc, ◌+◌, ◌-◌, ◌*◌, Bool, true, false, not, ◌&&◌, ◌||◌, Option, none, some, List, [],
  ◌∷◌, ◌++◌, ltb, leb, ◌==◌, if◌then◌else◌, length, get_or, text_eq, map,
}
use gsm2mqtt.Base.Maps.{lookup, delete, insert, keep}
use gsm2mqtt.Base.Text.{codes, decimal, join}

pub record IncomingPart : Type 0 where
  pub from : List ℕ
  pub text : List ℕ
  pub timestamp : ℕ
  pub is_multipart : Bool
  pub reference : ℕ
  pub part_number : ℕ
  pub total_parts : ℕ
  pub encoding : List ℕ

pub record AssembledSms : Type 0 where
  pub from : List ℕ
  pub text : List ℕ
  pub timestamp : ℕ
  pub segments : ℕ
  pub encoding : List ℕ
  pub is_complete : Bool
  pub is_update : Bool

-- The texts by part number.
abbrev pub PartTexts : Type 0
PartTexts = List (ℕ × List ℕ)

pub record PartialMessage : Type 0 where
  pub from : List ℕ
  pub parts : PartTexts
  pub total_parts : ℕ
  pub timestamp : ℕ
  pub encoding : List ℕ
  pub created_at : ℕ
  pub timer : Bool

pub record FlushedMessage : Type 0 where
  pub from : List ℕ
  pub parts : PartTexts
  pub total_parts : ℕ
  pub timestamp : ℕ
  pub encoding : List ℕ
  pub flushed_at : ℕ

abbrev pub Key : Type 0
Key = List ℕ × ℕ

abbrev pub key_eq : Key → Key → Bool
key_eq a b = text_eq a.0 b.0 && (a.1 == b.1)

pub record Assembler : Type 0 where
  pub ttl : ℕ
  pub timeout : ℕ
  pub pending : List (Key × PartialMessage)
  pub flushed : List (Key × FlushedMessage)

pub new_assembler : ℕ → ℕ → Assembler
new_assembler ttl timeout = record { ttl = ttl; timeout = timeout; pending = []; flushed = [] }

pub set_assembly_timeout : ℕ → Assembler → Assembler
set_assembly_timeout timeout a = record a { timeout = timeout }

pub close : Assembler → Assembler
close a = record a { pending = []; flushed = [] }

-- `parts[i]`, and whether it is there.
abbrev pub text_of : Option (List ℕ) → List ℕ
text_of (some text) = text
text_of none = []

abbrev pub is_there : Option (List ℕ) → Bool
is_there (some text) = true
is_there none = false

abbrev pub has_part : PartTexts → ℕ → Bool
has_part parts i = is_there (lookup ◌==◌ i parts)

-- The loop that writes the parts from `i` on, `n` of them.
pub joined : PartTexts → ℕ → ℕ → List ℕ
joined parts i zero = []
joined parts i (suc n) = text_of (lookup ◌==◌ i parts) ++ joined parts (i + 1) n

-- The numbers of formatPartsSummary.
pub part_numbers : PartTexts → ℕ → ℕ → List ℕ
part_numbers parts i zero = []
part_numbers parts i (suc n) =
    let rest = part_numbers parts (i + 1) n in if has_part parts i then i ∷ rest else rest

pub is_contiguous : List ℕ → Bool
is_contiguous [] = true
is_contiguous (n ∷ []) = true
is_contiguous (n ∷ m ∷ nums) =
    let rest = is_contiguous (m ∷ nums) in if m == n + 1 then rest else false

abbrev pub last : ℕ → List ℕ → ℕ
last n [] = n
last n (m ∷ nums) = last m nums

abbrev pub summary_of : List ℕ → ℕ → List ℕ
summary_of [] total = codes "Part ?/" ++ decimal total
summary_of (n ∷ []) total = codes "Part " ++ decimal n ++ codes "/" ++ decimal total
summary_of (n ∷ m ∷ nums) total =
    if is_contiguous (n ∷ m ∷ nums)
    then codes "Part "
      ++ decimal n
      ++ codes "-"
      ++ decimal (last m nums)
      ++ codes "/"
      ++ decimal total
    else codes "Part "
      ++ join (codes ",") (map decimal (n ∷ m ∷ nums))
      ++ codes "/"
      ++ decimal total

pub format_parts_summary : PartTexts → ℕ → List ℕ
format_parts_summary parts total = summary_of (part_numbers parts 1 total) total

-- Some part among `n` from `i` on.
pub has_any : PartTexts → ℕ → ℕ → Bool
has_any parts i zero = false
has_any parts i (suc n) = has_part parts i || has_any parts (i + 1) n

abbrev pub available_at : PartTexts → ℕ → ℕ → Option (List ℕ) → List ℕ
available_at parts total i (some text) = text
available_at parts total i none =
    if has_any parts 1 (i - 1) && has_any parts (i + 1) (total - i) then codes " [...] " else []

pub available : PartTexts → ℕ → ℕ → ℕ → List ℕ
available parts total i zero = []
available parts total i (suc n) =
    available_at parts total i (lookup ◌==◌ i parts) ++ available parts total (i + 1) n

pub build_available_text : PartTexts → ℕ → List ℕ
build_available_text parts total = available parts total 1 total

abbrev pub quarter_hour : ℕ
quarter_hour = 15 * 60 * 1000000000

abbrev pub flushed_ttl : ℕ → ℕ
flushed_ttl ttl = if ltb 0 ttl && ltb ttl quarter_hour then ttl else quarter_hour

pub cleanup_expired : ℕ → Assembler → Assembler
cleanup_expired now a = record a {
  pending =
      if ltb 0 a.ttl
      then keep (λ (pm : PartialMessage). not (ltb (pm.created_at + a.ttl) now)) a.pending
      else a.pending;
  flushed =
      keep (λ (fm : FlushedMessage). not (ltb (fm.flushed_at + flushed_ttl a.ttl) now)) a.flushed;
}

-- AddPart for a part of a message that was flushed.
pub add_late : Key → IncomingPart → FlushedMessage → Assembler → Option AssembledSms × Assembler
add_late key part fm a =
    let parts = insert ◌==◌ part.part_number part.text fm.parts in
    if length parts == fm.total_parts
    then (
      some (record {
        from = fm.from;
        text = codes "[Updated] " ++ joined parts 1 fm.total_parts;
        timestamp = fm.timestamp;
        segments = fm.total_parts;
        encoding = fm.encoding;
        is_complete = true;
        is_update = true;
      }),
      record a { flushed = delete key_eq key a.flushed },
    )
    else (
      some (record {
        from = fm.from;
        text =
            codes "[Updated "
            ++ format_parts_summary parts fm.total_parts
            ++ codes "]: "
            ++ build_available_text parts fm.total_parts;
        timestamp = fm.timestamp;
        segments = length parts;
        encoding = fm.encoding;
        is_complete = false;
        is_update = true;
      }),
      record a { flushed = insert key_eq key (record fm { parts = parts }) a.flushed },
    )

-- The pending message that AddPart starts with.
abbrev pub pending_or_new : ℕ → IncomingPart → Option PartialMessage → PartialMessage
pending_or_new now part (some pm) = pm
pending_or_new now part none = record {
  from = part.from;
  parts = [];
  total_parts = part.total_parts;
  timestamp = part.timestamp;
  encoding = part.encoding;
  created_at = now;
  timer = false;
}

-- AddPart for a part of a pending message, or of a new one.
pub add_pending : Key → IncomingPart → PartialMessage → Assembler → Option AssembledSms × Assembler
add_pending key part pm a =
    let parts = insert ◌==◌ part.part_number part.text pm.parts in
    if length parts == pm.total_parts
    then (
      some (record {
        from = pm.from;
        text = joined parts 1 pm.total_parts;
        timestamp = pm.timestamp;
        segments = pm.total_parts;
        encoding = pm.encoding;
        is_complete = true;
        is_update = false;
      }),
      record a { pending = delete key_eq key a.pending },
    )
    else (
      none,
      record a {
        pending =
            insert key_eq key (record pm { parts = parts; timer = ltb 0 a.timeout || pm.timer })
              a.pending;
      },
    )

abbrev pub key_of : IncomingPart → Key
key_of part = (part.from, part.reference)

-- AddPart behind its checks, with the flushed message of the key.
pub add_multipart :
    ℕ → IncomingPart → Assembler → Option FlushedMessage → Option AssembledSms × Assembler
add_multipart now part a (some fm) = add_late (key_of part) part fm a
add_multipart now part a none =
    add_pending (key_of part) part (pending_or_new now part (lookup key_eq (key_of part) a.pending))
      a

pub add_part : ℕ → IncomingPart → Assembler → Option AssembledSms × Assembler
add_part now part a =
    if not part.is_multipart || leb part.total_parts 1
    then (
      some (record {
        from = part.from;
        text = part.text;
        timestamp = part.timestamp;
        segments = 1;
        encoding = part.encoding;
        is_complete = true;
        is_update = false;
      }),
      a,
    )
    else (if (part.part_number == 0)
          || ltb part.total_parts part.part_number
          || ltb 20 part.total_parts
        then (none, a)
        else (let c = cleanup_expired now a in
            add_multipart now part c (lookup key_eq (key_of part) c.flushed)))

-- What flushPending does with the pending message of the key.
pub flush : ℕ → Key → Option PartialMessage → Assembler → Option AssembledSms × Assembler
flush now key none a = (none, a)
flush now key (some pm) a = (
  some (record {
    from = pm.from;
    text =
        codes "["
        ++ format_parts_summary pm.parts pm.total_parts
        ++ codes "]: "
        ++ build_available_text pm.parts pm.total_parts;
    timestamp = pm.timestamp;
    segments = length pm.parts;
    encoding = pm.encoding;
    is_complete = false;
    is_update = false;
  }),
  record a {
    pending = delete key_eq key a.pending;
    flushed =
        insert key_eq key
          (record {
            from = pm.from;
            parts = pm.parts;
            total_parts = pm.total_parts;
            timestamp = pm.timestamp;
            encoding = pm.encoding;
            flushed_at = now;
          })
          a.flushed;
  },
)

pub flush_pending : ℕ → Key → Assembler → Option AssembledSms × Assembler
flush_pending now key a = flush now key (lookup key_eq key a.pending) a
