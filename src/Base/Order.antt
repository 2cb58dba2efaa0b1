-- ===== src/Base/Order.antt =====
-- The order that a watcher compares change marks by, as an interface: `uint64` indexes and `int64`
-- times have it.
use Prim.Native.Nat.{ℕ}
use mathlib.Core.Path.{◌≡◌}
use mathlib.Core.Bool.{Bool, true, false}
use native.Mathlib.Omega.{arith}
use nomad_firehose.Base.Tests.{leb}
use nomad_firehose.Base.Int.{ℤ, leb_ℤ}

pub record Order {ℓ} (K : Type ℓ) : Type ℓ where
  pub leq : K → K → Bool
  pub leq_refl : (a : K) → leq a a ≡ true
  pub leq_trans : (a b c : K) → leq a b ≡ true → leq b c ≡ true → leq a c ≡ true
  pub leq_total : (a b : K) → leq a b ≡ false → leq b a ≡ true
  pub leq_antisym : (a b : K) → leq a b ≡ true → leq b a ≡ true → a ≡ b

pub leb_refl : (a : ℕ) → leb a a ≡ true
leb_refl a = ground arith

pub leb_trans : (a b c : ℕ) → leb a b ≡ true → leb b c ≡ true → leb a c ≡ true
leb_trans a b c h k = ground arith

pub leb_total : (a b : ℕ) → leb a b ≡ false → leb b a ≡ true
leb_total a b h = ground arith

pub leb_antisym : (a b : ℕ) → leb a b ≡ true → leb b a ≡ true → a ≡ b
leb_antisym a b h k = ground arith

pub leb_ℤ_refl : (a : ℤ) → leb_ℤ a a ≡ true
leb_ℤ_refl a = ground arith

pub leb_ℤ_trans : (a b c : ℤ) → leb_ℤ a b ≡ true → leb_ℤ b c ≡ true → leb_ℤ a c ≡ true
leb_ℤ_trans a b c h k = ground arith

pub leb_ℤ_total : (a b : ℤ) → leb_ℤ a b ≡ false → leb_ℤ b a ≡ true
leb_ℤ_total a b h = ground arith

pub leb_ℤ_antisym : (a b : ℤ) → leb_ℤ a b ≡ true → leb_ℤ b a ≡ true → a ≡ b
leb_ℤ_antisym a b h k = ground arith

instance abbrev pub index_order : Order ℕ
index_order = record {
  leq = leb;
  leq_refl = leb_refl;
  leq_trans = leb_trans;
  leq_total = leb_total;
  leq_antisym = leb_antisym;
}

instance abbrev pub time_order : Order ℤ
time_order = record {
  leq = leb_ℤ;
  leq_refl = leb_ℤ_refl;
  leq_trans = leb_ℤ_trans;
  leq_total = leb_ℤ_total;
  leq_antisym = leb_ℤ_antisym;
}
