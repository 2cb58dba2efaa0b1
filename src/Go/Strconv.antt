-- ===== src/Go/Strconv.antt =====
-- The decimal part of the package `strconv`, and `%d` of `fmt`.
pub mod RoundTrip
use nomad_firehose.Base.{
  ℕ, zero, suc, ◌+◌, ◌-◌, ◌*◌, ◌/◌, ◌%◌, ◌^◌, ◌||◌, ◌&&◌, not, Bool, true, false, Option, none,
  some, List, [], ◌∷◌, ltb, leb, ◌==◌, if◌then◌else◌,
}
use nomad_firehose.Base.Int.{ℤ, pos, negsuc}
use nomad_firehose.Go.Value.{Bytes}

pub data ParseError : Type 0 where
  syntax range : ParseError

-- A result is a value and an error, and both are given.
pub record Parsed {ℓ} (A : Type ℓ) : Type ℓ where
  pub value : A
  pub error : Option ParseError

abbrev pub parsed {ℓ} : {A : Type ℓ} → A → Parsed A
parsed a = record { value = a; error = none }

abbrev pub failed {ℓ} : {A : Type ℓ} → A → ParseError → Parsed A
failed a e = record { value = a; error = some e }

abbrev pub max_u64 : ℕ
max_u64 = 2 ^ 64 - 1

-- The digits of `n`, the last first; twenty suffice for a `uint64`.
pub digits : ℕ → ℕ → Bytes → Bytes
digits zero n out = out
digits (suc f) n out =
    let rest = digits f (n / 10) ((b'0' + n % 10) ∷ out) in
    if ltb n 10 then (b'0' + n) ∷ out else rest

unfoldable pub format_uint : ℕ → Bytes
unfolding digits
format_uint n = digits 20 n []

unfoldable pub format_int : ℤ → Bytes
format_int (pos n) = format_uint n
format_int (negsuc n) = b'-' ∷ format_uint (suc n)

-- The loop of `ParseUint`, at base 10 and 64 bits.
pub scan : Bytes → ℕ → Parsed ℕ
scan [] n = parsed n
scan (c ∷ s) n =
    let d = c - b'0' in
    let n1 = (n * 10 + d) % 2 ^ 64 in
    let rest = scan s n1 in
    if ltb c b'0' || ltb b'9' c
    then failed 0 syntax
    else if leb (max_u64 / 10 + 1) n
    then failed max_u64 range
    else if ltb n1 (n * 10)
    then failed max_u64 range
    else rest

unfoldable pub parse_uint : Bytes → Parsed ℕ
unfolding scan
parse_uint [] = failed 0 syntax
parse_uint (c ∷ s) = scan (c ∷ s) 0

abbrev pub negate : ℕ → ℤ
negate zero = pos 0
negate (suc n) = negsuc n

-- The second half of `ParseInt`: the sign is read, and `un` comes from `ParseUint`.
pub signed : Bool → Parsed ℕ → Parsed ℤ
signed neg un = elim un.error [
  | some syntax ↦ failed (pos 0) syntax
  | _ ↦
      if not neg && leb (2 ^ 63) un.value
      then failed (pos (2 ^ 63 - 1)) range
      else if neg && ltb (2 ^ 63) un.value
      then failed (negsuc (2 ^ 63 - 1)) range
      else parsed (if neg then negate un.value else pos un.value)
]

-- `ParseInt` at base 10 and 64 bits, which is `Atoi` too.
unfoldable pub parse_int : Bytes → Parsed ℤ
unfolding signed parse_uint
parse_int [] = failed (pos 0) syntax
parse_int (c ∷ s) =
    if c == b'+'
    then signed false (parse_uint s)
    else if c == b'-'
    then signed true (parse_uint s)
    else signed false (parse_uint (c ∷ s))
