-- ===== src/Go/Strconv/RoundTrip.antt =====
-- Printing and reading decimal numbers.
use native.Mathlib.Nat.{pow-suc}
use nomad_firehose.Base.{
  ℕ, zero, suc, ◌+◌, ◌-◌, ◌*◌, ◌/◌, ◌%◌, ◌^◌, ◌≤◌, ◌<◌, ◌≡◌, refl, ◌∙◌, ap, subst, false, [], ◌∷◌,
  arith, ltb, ltb→lt, Bool-cases, inl, inr,
}
use nomad_firehose.Base.Int.{ℤ, pos, negsuc}
use nomad_firehose.Go.Value.{Bytes, IsInt64}
use nomad_firehose.Go.Strconv.{
  parsed, failed, range, max_u64, digits, format_uint, format_int, scan, parse_uint, parse_int,
  signed,
}

scan-digit :
    (d n : ℕ) (s : Bytes)
    → d < 10
    → n * 10 + d ≤ max_u64
    → scan ((b'0' + d) ∷ s) n ≡ scan s (n * 10 + d)
unfolding scan
scan-digit d n s h k = ground arith

scan-digits :
    (f n : ℕ) (out : Bytes) → n < 10 ^ f → n ≤ max_u64 → scan (digits f n out) 0 ≡ scan out n
unfolding digits
scan-digits zero n out h k = ap (scan out) (omega arith)
scan-digits (suc f) n out h k = elim (Bool-cases (ltb n 10)) [
  | inl small ↦
      rw small (scan-digit n 0 out (ltb→lt n 10 small) (omega arith) ∙ ap (scan out) (omega arith))
  | inr large ↦ rw large (
      scan-digits f (n / 10) ((b'0' + n % 10) ∷ out) (omega (arith, pow-suc 10 f)) (omega arith)
      ∙ scan-digit (n % 10) (n / 10) out (omega arith) (omega arith)
      ∙ ap (scan out) (omega arith))
]

-- A printed number begins with a digit, so it has no sign.
abbrev Unsigned : Bytes → Type 0
Unsigned s = (c : ℕ) × (t : Bytes) × (s ≡ c ∷ t) × (b'0' ≤ c) × (c ≤ b'9')

digits-Unsigned : (f n : ℕ) (out : Bytes) → Unsigned out → Unsigned (digits f n out)
unfolding digits
digits-Unsigned zero n out u = u
digits-Unsigned (suc f) n out u = elim (Bool-cases (ltb n 10)) [
  | inl small ↦ rw small (b'0' + n, out, refl, omega arith, ground arith)
  | inr large ↦ rw large (
      digits-Unsigned f (n / 10) ((b'0' + n % 10) ∷ out)
        (b'0' + n % 10, out, refl, omega arith, omega arith))
]

format_uint-Unsigned : (n : ℕ) → Unsigned (format_uint n)
unfolding format_uint digits
format_uint-Unsigned n = elim (Bool-cases (ltb n 10)) [
  | inl small ↦ rw small (b'0' + n, [], refl, omega arith, ground arith)
  | inr large ↦ rw large (
      digits-Unsigned 19 (n / 10) ((b'0' + n % 10) ∷ [])
        (b'0' + n % 10, [], refl, omega arith, omega arith))
]

scan-format_uint : (n : ℕ) → n ≤ max_u64 → scan (format_uint n) 0 ≡ parsed n
unfolding format_uint scan
scan-format_uint n h = scan-digits 20 n [] (omega arith) h

parse_uint-format_uint : (n : ℕ) → n ≤ max_u64 → parse_uint (format_uint n) ≡ parsed n
unfolding parse_uint
parse_uint-format_uint n h =
    let (c, t, e, lo, hi) = format_uint-Unsigned n in
    rw e (subst (λ s. scan s 0 ≡ parsed n) e (scan-format_uint n h))

parse_int-unsigned : (n : ℕ) → n ≤ max_u64 → parse_int (format_uint n) ≡ signed false (parsed n)
unfolding parse_int
parse_int-unsigned n h =
    let (c, t, e, lo, hi) = format_uint-Unsigned n in
    rw e (ground (arith, subst (λ s. parse_uint s ≡ parsed n) e (parse_uint-format_uint n h)))

-- An index that `Sprintf` printed with `%d` comes back, as long as it is below 2^63.
pub parse_int-format_uint : (n : ℕ) → n < 2 ^ 63 → parse_int (format_uint n) ≡ parsed (pos n)
unfolding signed
parse_int-format_uint n h = parse_int-unsigned n (omega arith) ∙ ground arith

-- From 2^63 on the reading fails: it is the largest `int64`, with a range error.
pub parse_int-format_uint_range :
    (n : ℕ) → 2 ^ 63 ≤ n → n < 2 ^ 64 → parse_int (format_uint n) ≡ failed (pos (2 ^ 63 - 1)) range
unfolding signed
parse_int-format_uint_range n lo hi = parse_int-unsigned n (omega arith) ∙ ground arith

-- Every number in the range of `int64`, negative ones included, is read back by `ParseInt` from
-- the text that `%d` prints of it.
pub parse_int-format_int : (v : ℤ) → IsInt64 v → parse_int (format_int v) ≡ parsed v
unfolding format_int parse_int signed
parse_int-format_int (pos n) h = parse_int-format_uint n h
parse_int-format_int (negsuc n) h = rw (parse_uint-format_uint (suc n) (omega arith)) (ground arith)
