-- ===== src/Base/Perms.antt =====
-- Rearranged lists: what loops make of them.
use mathlib.Core.Logic.{∥∥₁_elim}
use mathlib.Core.List.{Perm, Perm-prop, perm_append_comm}
use mathlib.Core.List.Perm
use mathlib.Core.List.{Permᴰ}
use mathlib.Core.Path.{◌≡◌, refl, ap, ◌∙◌}
use mathlib.Core.Bool.{Bool}
use mathlib.Core.Logic.{inl, inr}
use mathlib.Core.List.{List, ◌∷◌, foldl, append_assoc}
use nomad_firehose.Base.Tests.{Bool-cases}
use nomad_firehose.Base.Lists.{select, gather}

module _ {ℓ} {A : Type ℓ} where
  select_cons :
      (p : A → Bool) (a : A) (xs ys : List A)
      → Perm (select p xs) (select p ys)
      → Perm (select p (a ∷ xs)) (select p (a ∷ ys))
  select_cons p a xs ys h = elim (Bool-cases (p a)) [
    | inl keep ↦ rw keep (Perm.cons a h)
    | inr drop ↦ rw drop h
  ]

  select_swap :
      (p : A → Bool) (a b : A) (xs : List A) → Perm (select p (a ∷ b ∷ xs)) (select p (b ∷ a ∷ xs))
  select_swap p a b xs = elim (Bool-cases (p a)) [
    | inl ka ↦ elim (Bool-cases (p b)) [
      | inl kb ↦ rw (ka, kb) (Perm.swap b a (select p xs))
      | inr db ↦ rw (ka, db) Perm.rfl
    ]
    | inr da ↦ rw da Perm.rfl
  ]

  select-permᴰ : (p : A → Bool) {xs ys : List A} → Permᴰ xs ys → Perm (select p xs) (select p ys)
  select-permᴰ p Permᴰ.nil = Perm.nil
  select-permᴰ p (Permᴰ.cons {b = b} e d) = rw e (select_cons p b _ _ (select-permᴰ p d))
  select-permᴰ p (Permᴰ.swap {a' = a'} {b' = b'} {l = l} e f) = rw (e, f) (select_swap p b' a' l)
  select-permᴰ p (Permᴰ.trans d c) = Perm.trans (select-permᴰ p d) (select-permᴰ p c)

  -- A test keeps the same items of a rearranged list.
  pub select-perm : (p : A → Bool) {xs ys : List A} → Perm xs ys → Perm (select p xs) (select p ys)
  select-perm p h = ∥∥₁_elim h Perm-prop (select-permᴰ p)

module _ {ℓ κ} {A : Type ℓ} {S : Type κ} (f : S → A → S)
    (comm : (s : S) (a b : A) → f (f s a) b ≡ f (f s b) a) where
  foldl-permᴰ : {xs ys : List A} → Permᴰ xs ys → (s : S) → foldl f s xs ≡ foldl f s ys
  foldl-permᴰ Permᴰ.nil s = refl
  foldl-permᴰ (Permᴰ.cons {b = b} e d) s = rw e (foldl-permᴰ d (f s b))
  foldl-permᴰ (Permᴰ.swap {a' = a'} {b' = b'} {l = l} e g) s =
      rw (e, g) (ap (λ t. foldl f t l) (comm s b' a'))
  foldl-permᴰ (Permᴰ.trans d c) s = foldl-permᴰ d s ∙ foldl-permᴰ c s

  -- A loop whose steps commute does not see the order.
  pub foldl-perm : IsSet S → {xs ys : List A} → Perm xs ys → (s : S) → foldl f s xs ≡ foldl f s ys
  foldl-perm set {xs} {ys} h s =
      ∥∥₁_elim h (set (foldl f s xs) (foldl f s ys)) (λ d. foldl-permᴰ d s)

module _ {ℓ κ} {A : Type ℓ} {B : Type κ} (g : A → List B) where
  gather_swap : (a b : A) (xs : List A) → Perm (gather g (a ∷ b ∷ xs)) (gather g (b ∷ a ∷ xs))
  gather_swap a b xs =
      rw (← append_assoc (g a) (g b) (gather g xs), ← append_assoc (g b) (g a) (gather g xs))
        (Perm.append_right (gather g xs) (perm_append_comm (g a) (g b)))

  gather-permᴰ : {xs ys : List A} → Permᴰ xs ys → Perm (gather g xs) (gather g ys)
  gather-permᴰ Permᴰ.nil = Perm.nil
  gather-permᴰ (Permᴰ.cons {b = b} e d) = rw e (Perm.append_left (g b) (gather-permᴰ d))
  gather-permᴰ (Permᴰ.swap {a' = a'} {b' = b'} {l = l} e f) = rw (e, f) (gather_swap b' a' l)
  gather-permᴰ (Permᴰ.trans d c) = Perm.trans (gather-permᴰ d) (gather-permᴰ c)

  -- Nested loops over a rearranged list visit the same items.
  pub gather-perm : {xs ys : List A} → Perm xs ys → Perm (gather g xs) (gather g ys)
  gather-perm h = ∥∥₁_elim h Perm-prop gather-permᴰ
