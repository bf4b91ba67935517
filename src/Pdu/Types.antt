-- ===== src/Pdu/Types.antt =====
-- internal/sms/pdu/types.go and errors.go, with a result type whose error `panic` is Go's panic on
-- an index or a slice out of range.
use gsm2mqtt.Base.{
  ℕ, ◌-◌, ◌≤◌, ◌<◌, Bool, true, false, List, length, get_or, take, drop, ltb, leb, if◌then◌else◌,
  ◌&&◌, ◌≡◌, arith,
}
use gsm2mqtt.Base.Int.{ℤ}

-- `unset` is the empty string.
pub data Encoding : Type 0 where
  auto gsm7 ucs2 binary unset : Encoding

abbrev pub is_ucs2 : Encoding → Bool
is_ucs2 ucs2 = true
is_ucs2 _ = false

abbrev pub is_gsm7_encoding : Encoding → Bool
is_gsm7_encoding gsm7 = true
is_gsm7_encoding _ = false

abbrev pub is_auto : Encoding → Bool
is_auto auto = true
is_auto unset = true
is_auto _ = false

-- PDU.
pub record Pdu : Type 0 where
  pub command_length : ℕ
  pub hex : List ℕ
  pub has_udh : Bool
  pub encoding : Encoding
  pub part_number : ℕ
  pub total_parts : ℕ

-- What time.Date is called with.
pub record Timestamp : Type 0 where
  pub year : ℕ
  pub month : ℕ
  pub day : ℕ
  pub hour : ℕ
  pub minute : ℕ
  pub second : ℕ
  pub offset : ℤ

-- DecodedSMS.
pub record DecodedSms : Type 0 where
  pub from : List ℕ
  pub text : List ℕ
  pub timestamp : Timestamp
  pub encoding : Encoding
  pub has_udh : Bool
  pub reference : ℕ
  pub part_number : ℕ
  pub total_parts : ℕ

pub record StatusReport : Type 0 where
  pub message_ref : ℕ
  pub recipient : List ℕ
  pub sc_timestamp : Timestamp
  pub discharge : Timestamp
  pub status_code : ℕ
  pub delivered : Bool
  pub temporary : Bool
  pub permanent : Bool

pub data Error : Type 0 where
  invalid_hex truncated_pdu empty_recipient empty_text not_status_report : Error
  unsupported_message_type panic : Error

-- What a function with an error result returns.
pub data Result {ℓ} (T : Type ℓ) : Type ℓ where
  ok : T → Result T
  err : Error → Result T

-- `if e != nil { return nil, e }` after a call.
module _ {ℓ κ} {S : Type ℓ} {T : Type κ} where
  infixl 5 ◌>>=◌
  abbrev pub ◌>>=◌ : Result S → (S → Result T) → Result T
  err e >>= next = err e
  ok value >>= next = next value

infixl 5 ◌>>◌
abbrev pub ◌>>◌ {κ} : {T : Type κ} → Result (Unit {0}) → Result T → Result T
err e >> next = err e
ok u >> next = next

-- `if !test { return nil, e }`
abbrev pub guard : Bool → Error → Result (Unit {0})
guard false e = err e
guard true e = ok tt

-- `octets[i]`
unfoldable pub index : List ℕ → ℕ → Result ℕ
index octets i = if ltb i (length octets) then ok (get_or octets i 0) else err panic

-- `octets[lo:hi]`
unfoldable pub slice : List ℕ → ℕ → ℕ → Result (List ℕ)
slice octets lo hi =
    if leb lo hi && leb hi (length octets) then ok (take (hi - lo) (drop lo octets)) else err panic

pub index_in_range :
    (octets : List ℕ) (i : ℕ) → i < length octets → index octets i ≡ ok (get_or octets i 0)
unfolding index
index_in_range octets i h = ground arith

pub slice_in_range :
    (octets : List ℕ) (lo hi : ℕ)
    → lo ≤ hi
    → hi ≤ length octets
    → slice octets lo hi ≡ ok (take (hi - lo) (drop lo octets))
unfolding slice
slice_in_range octets lo hi h k = ground arith
