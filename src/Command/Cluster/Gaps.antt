-- ===== src/Command/Cluster/Gaps.antt =====
-- The indexes that the processes of a firehose under command/ have gone through, when one of them moves on.
use nomad_firehose.Base.{
  ℕ, ◌≡◌, ◌≤◌, ◌<◌, ◌^◌, ◌⊎◌, inl, inr, List, [], ◌∷◌, ◌++◌, Option, none, some, All, All-left,
  All-right, All-append, All_mono, arith, leb, Bool-cases,
}
use nomad_firehose.Base.Order.{index_order}
use nomad_firehose.Go.Value.{Bytes}
use nomad_firehose.Go.Strconv.{format_uint}
use nomad_firehose.Command.Persist
use nomad_firehose.Command.Persist.{Saver, restored}
use nomad_firehose.Command.Crash.{IsRising-last}
use nomad_firehose.Command.Persist.Laws.{saved_rises, on_the_way}
use nomad_firehose.Command.Cluster.{Member, Cluster}

-- The index is above the start of the process, and not above its last change.
abbrev pub Covers : ℕ → Member → Type 0
Covers x m = (m.from < x) × (x ≤ m.saver.last_change)

abbrev pub Some : {A : Type 0} → (A → Type 0) → List A → Type 0
Some P [] = ⊥
Some P (m ∷ ms) = P m ⊎ Some P ms

pub Some-append : (P : Member → Type 0) (ms ns : List Member) → Some P ms → Some P (ms ++ ns)
Some-append P (m ∷ ms) ns (inl p) = inl p
Some-append P (m ∷ ms) ns (inr s) = inr (Some-append P ms ns s)
Some-append P [] ns s = absurd s

Some-at : (P : Member → Type 0) (xs ys : List Member) (m : Member) → P m → Some P (xs ++ m ∷ ys)
Some-at P [] ys m p = inl p
Some-at P (x ∷ xs) ys m p = inr (Some-at P xs ys m p)

-- Some member still has the property when one of them moves on.
Some-move :
    (P : Member → Type 0) (xs ys : List Member) (m n : Member)
    → (P m → P n)
    → Some P (xs ++ m ∷ ys)
    → Some P (xs ++ n ∷ ys)
Some-move P [] ys m n f (inl p) = inl (f p)
Some-move P [] ys m n f (inr s) = inr s
Some-move P (x ∷ xs) ys m n f (inl p) = inl p
Some-move P (x ∷ xs) ys m n f (inr s) = inr (Some-move P xs ys m n f s)

-- Every index up to `v` is covered.
abbrev pub NoGap : List Member → ℕ → Type 0
NoGap ms v = (x : ℕ) → 0 < x → x ≤ v → Some (Covers x) ms

-- What is stored is the text of a number without a gap below it.
abbrev pub Backed : Cluster → Type 0
Backed c =
    (c.stored ≡ none)
    ⊎ ((v : ℕ) × (c.stored ≡ some (format_uint v)) × (v < 2 ^ 63) × NoGap c.members v)

pub record Invariant (c : Cluster) : Type 0 where
  pub reached : All (λ m. Persist.Reach m.from m.saver) c.members
  pub backed : Backed c
  pub no_gaps : All (λ m. NoGap c.members m.saver.last_change) c.members

from_low : {k : ℕ} {s : Saver ℕ} → Persist.Reach k s → k ≤ s.last_change
from_low {k} {s} r =
    let low = IsRising-last [] (on_the_way s) k s.last_change (saved_rises k r) in ground arith

pub Step-rises : {s s' : Saver ℕ} → Persist.Step s s' → s.last_change ≤ s'.last_change
Step-rises (Persist.rise k le) = ground arith
Step-rises (Persist.tick e) = omega arith
Step-rises (Persist.see_stop e f) = omega arith
Step-rises (Persist.send k e f) = omega arith
Step-rises (Persist.take k e) = omega arith
Step-rises Persist.stop = omega arith

pub NoGap-move :
    (xs ys : List Member) (m : Member) {s : Saver ℕ} (v : ℕ)
    → Persist.Step m.saver s
    → NoGap (xs ++ m ∷ ys) v
    → NoGap (xs ++ record m { saver = s } ∷ ys) v
NoGap-move xs ys m {s} v st g x some_x low =
    Some-move (Covers x) xs ys m (record m { saver = s })
      (λ h. (h.0, omega (arith, h.1, Step-rises st))) (g x some_x low)

NoGap-rise :
    (xs ys : List Member) (m : Member) {s : Saver ℕ}
    → Persist.Reach m.from m.saver
    → Persist.Step m.saver s
    → NoGap (xs ++ m ∷ ys) m.saver.last_change
    → NoGap (xs ++ record m { saver = s } ∷ ys) s.last_change
NoGap-rise xs ys m {s} r st g x some_x low = elim (Bool-cases (leb x m.saver.last_change)) [
  | inl before ↦ NoGap-move xs ys m m.saver.last_change st g x some_x (ground arith)
  | inr after ↦ Some-at (Covers x) xs ys (record m { saver = s }) (ground (arith, from_low r), low)
]

pub Backed-move :
    (stored : Option Bytes) (xs ys : List Member) (m : Member) {s : Saver ℕ}
    → Persist.Step m.saver s
    → Backed (record { stored = stored; members = xs ++ m ∷ ys })
    → Backed (record { stored = stored; members = xs ++ record m { saver = s } ∷ ys })
Backed-move stored xs ys m st (inl e) = inl e
Backed-move stored xs ys m st (inr (v, e, small, g)) = inr (v, e, small, NoGap-move xs ys m v st g)

-- One process moves on.
pub moved :
    (stored stored' : Option Bytes) (xs ys : List Member) (m : Member) {s : Saver ℕ}
    → Persist.Step m.saver s
    → Invariant (record { stored = stored; members = xs ++ m ∷ ys })
    → Backed (record { stored = stored'; members = xs ++ record m { saver = s } ∷ ys })
    → Invariant (record { stored = stored'; members = xs ++ record m { saver = s } ∷ ys })
moved stored stored' xs ys m {s} st i b =
    let reach = All-right _ xs (m ∷ ys) i.reached in
    let gaps = All-right _ xs (m ∷ ys) i.no_gaps in
    record {
      reached =
          All-append _ xs _ (All-left _ xs (m ∷ ys) i.reached) (Persist.go_on reach.0 st, reach.1);
      backed = b;
      no_gaps =
          All-append _ xs _
            (All_mono _ _ xs (λ n. NoGap-move xs ys m n.saver.last_change st)
              (All-left _ xs (m ∷ ys) i.no_gaps))
            (
              NoGap-rise xs ys m reach.0 st gaps.0,
              All_mono _ _ ys (λ n. NoGap-move xs ys m n.saver.last_change st) gaps.1,
            );
    }
