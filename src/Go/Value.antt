-- ===== src/Go/Value.antt =====
-- Values behind `interface{}`, and the 64-bit integers; `int` has 64 bits.
use nomad_firehose.Base.{ℕ, zero, suc, ◌+◌, ◌-◌, ◌%◌, ◌^◌, ◌<◌, List, ◌==◌, if◌then◌else◌}
use nomad_firehose.Base.Int.{ℤ, pos, negsuc}

abbrev pub Bytes : Type 0
Bytes = List ℕ

pub data Value : Type 0 where
  int : ℤ → Value
  int64 : ℤ → Value
  uint64 : ℕ → Value
  string : Bytes → Value
  other : Value

-- The range of `int64` and of `int`.
abbrev pub IsInt64 : ℤ → Type 0
IsInt64 (pos n) = n < 2 ^ 63
IsInt64 (negsuc n) = n < 2 ^ 63

-- The conversion `uint64(v)` of an `int` or an `int64` keeps the bit pattern.
unfoldable pub to_uint64 : ℤ → ℕ
to_uint64 (pos n) = n % 2 ^ 64
to_uint64 (negsuc n) = 2 ^ 64 - 1 - n % 2 ^ 64

-- `v + 1` in `int64`, which wraps at the largest value.
unfoldable pub succ_int64 : ℤ → ℤ
succ_int64 (pos n) = if n == 2 ^ 63 - 1 then negsuc (2 ^ 63 - 1) else pos (n + 1)
succ_int64 (negsuc zero) = pos 0
succ_int64 (negsuc (suc n)) = negsuc n
