-- ===== src/Base/Lists.antt =====
-- Lists measured by native numbers, filtered by Boolean tests, and walked by nested loops.
use Prim.Native.Nat.{ℕ, suc, ◌+◌}
use mathlib.Core.Path.{◌≡◌, refl, sym, ap, subst, ◌∙◌}
use mathlib.Core.Bool.{Bool, true}
use mathlib.Core.Logic.Or
use mathlib.Core.List.{
  List, [], ◌∷◌, ◌++◌, foldl, foldl-append, append_assoc, Mem, mem-cons, not-mem-nil, mem-cons_self,
  mem-cons_of_mem, Mem-prop,
}
use native.Mathlib.Omega.{arith}
use nomad_firehose.Base.Tests.{if◌then◌else◌, Bool-cases}
use mathlib.Core.Logic.{inl, inr}

module _ {ℓ} {A : Type ℓ} where
  abbrev pub length : List A → ℕ
  length [] = 0
  length (x ∷ xs) = suc (length xs)

  pub length-append : (xs ys : List A) → length (xs ++ ys) ≡ length xs + length ys
  length-append [] ys = omega arith
  length-append (x ∷ xs) ys = omega (arith, length-append xs ys)

  -- The items that pass a test, in their order.
  abbrev pub select : (A → Bool) → List A → List A
  select p [] = []
  select p (x ∷ xs) = if p x then x ∷ select p xs else select p xs

  pub select-append :
      (p : A → Bool) (xs ys : List A) → select p (xs ++ ys) ≡ select p xs ++ select p ys
  select-append p [] ys = refl
  select-append p (x ∷ xs) ys = ground (arith, select-append p xs ys)

  abbrev pub All {κ} : (A → Type κ) → List A → Type κ
  All P [] = Unit
  All P (x ∷ xs) = P x × All P xs

  pub All-append {κ} : (P : A → Type κ) (xs ys : List A) → All P xs → All P ys → All P (xs ++ ys)
  All-append P [] ys h k = k
  All-append P (x ∷ xs) ys h k = (h.0, All-append P xs ys h.1 k)

  pub All-left {κ} : (P : A → Type κ) (xs ys : List A) → All P (xs ++ ys) → All P xs
  All-left P [] ys h = tt
  All-left P (x ∷ xs) ys h = (h.0, All-left P xs ys h.1)

  pub All-right {κ} : (P : A → Type κ) (xs ys : List A) → All P (xs ++ ys) → All P ys
  All-right P [] ys h = h
  All-right P (x ∷ xs) ys h = All-right P xs ys h.1

  pub All_mono {κ} : (P Q : A → Type κ) (xs : List A) → ((x : A) → P x → Q x) → All P xs → All Q xs
  All_mono P Q [] f h = tt
  All_mono P Q (x ∷ xs) f h = (f x h.0, All_mono P Q xs f h.1)

  pub select-All : (p : A → Bool) (xs : List A) → All (λ x. p x ≡ true) (select p xs)
  select-All p [] = tt
  select-All p (x ∷ xs) = ground (arith, select-All p xs)

module _ {ℓ κ} {A : Type ℓ} {B : Type κ} where
  -- The items that nested loops visit, in their order.
  abbrev pub gather : (A → List B) → List A → List B
  gather g [] = []
  gather g (x ∷ xs) = g x ++ gather g xs

  pub gather-append :
      (g : A → List B) (xs ys : List A) → gather g (xs ++ ys) ≡ gather g xs ++ gather g ys
  gather-append g [] ys = refl
  gather-append g (x ∷ xs) ys =
      ap (◌++◌ (g x)) (gather-append g xs ys) ∙ sym (append_assoc (g x) (gather g xs) (gather g ys))

  -- A loop in a loop is one loop over the gathered items.
  pub foldl-gather {μ} :
      {S : Type μ} (f : S → B → S) (g : A → List B) (s : S) (xs : List A)
      → foldl (λ t x. foldl f t (g x)) s xs ≡ foldl f s (gather g xs)
  foldl-gather f g s [] = refl
  foldl-gather f g s (x ∷ xs) =
      foldl-gather f g (foldl f s (g x)) xs ∙ sym (foldl-append f s (g x) (gather g xs))

-- What holds of all items holds of each.
pub All-mem {ℓ κ} :
    {A : Type ℓ} (P : A → Type κ)
    → ((x : A) → IsProp (P x))
    → (xs : List A) (x : A) → Mem x xs
    → All P xs
    → P x
All-mem P prop [] x m h = absurd (not-mem-nil m)
All-mem P prop (y ∷ ys) x m h =
    Or.elim (prop x) (mem-cons.0 m) (λ e. subst P (sym e) h.0) (λ t. All-mem P prop ys x t h.1)

-- The instance for a Boolean test.
pub All-mem_test {ℓ} :
    {A : Type ℓ} (p : A → Bool) (b : Bool) (xs : List A) (x : A)
    → Mem x xs
    → All (λ y. p y ≡ b) xs
    → p x ≡ b
All-mem_test p b xs x m h = All-mem (λ y. p y ≡ b) (λ y. hlevel) xs x m h

pub mem-select {ℓ} :
    {A : Type ℓ} (p : A → Bool) (xs : List A) (x : A) → p x ≡ true → Mem x xs → Mem x (select p xs)
mem-select p [] x h m = absurd (not-mem-nil m)
mem-select p (y ∷ ys) x h m = elim (Bool-cases (p y)) [
  | inl keep ↦ rw keep (
      Or.elim Mem-prop (mem-cons.0 m) (λ e. rw e mem-cons_self)
        (λ t. mem-cons_of_mem y (mem-select p ys x h t)))
  | inr drop ↦
      rw drop (Or.elim Mem-prop (mem-cons.0 m) (λ e. cc (ap p e)) (λ t. mem-select p ys x h t))
]

-- Each item gets its property from where it stands too.
pub All_mono_mem {ℓ κ μ} :
    {A : Type ℓ} (P : A → Type κ) (Q : A → Type μ) (xs : List A)
    → ((x : A) → Mem x xs → P x → Q x)
    → All P xs
    → All Q xs
All_mono_mem P Q [] f h = tt
All_mono_mem P Q (x ∷ xs) f h =
    (f x mem-cons_self h.0, All_mono_mem P Q xs (λ y m. f y (mem-cons_of_mem x m)) h.1)

-- A property of each item of a list is one of all.
pub All_items {ℓ κ} :
    {A : Type ℓ} (P : A → Type κ) (xs : List A) → ((x : A) → Mem x xs → P x) → All P xs
All_items P [] f = tt
All_items P (x ∷ xs) f = (f x mem-cons_self, All_items P xs (λ y m. f y (mem-cons_of_mem x m)))
