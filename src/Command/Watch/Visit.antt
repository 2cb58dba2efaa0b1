-- ===== src/Command/Watch/Visit.antt =====
-- One pass over the items of an answer.
use nomad_firehose.Base.{
  ◌≡◌, ◌∙◌, sym, ap, Bool, true, false, not, inl, inr, List, [], ◌∷◌, ◌++◌, foldl, append_assoc,
  append-nil, All, select, if◌then◌else◌, Bool-cases,
}
use nomad_firehose.Base.Order.{Order}
use nomad_firehose.Command.Watch.{Found, visit}

module _ {ℓ} {K A : Type ℓ} ⦃o : Order K⦄ (mark : A → K) where
  abbrev pub is_fresh : K → A → Bool
  is_fresh last x = not (o.leq (mark x) last)

  abbrev raise : K → K → K
  raise m k = if o.leq k m then m else k

  leq-raise_left : (m k : K) → o.leq m (raise m k) ≡ true
  leq-raise_left m k = elim (Bool-cases (o.leq k m)) [
    | inl below ↦ rw below (o.leq_refl m)
    | inr above ↦ rw above (o.leq_total k m above)
  ]

  leq-raise_right : (m k : K) → o.leq k (raise m k) ≡ true
  leq-raise_right m k = elim (Bool-cases (o.leq k m)) [
    | inl below ↦ rw below below
    | inr above ↦ rw above (o.leq_refl k)
  ]

  leq-raise_least :
      (k m n : K) → o.leq k m ≡ false → o.leq k n ≡ false → o.leq k (raise m n) ≡ false
  leq-raise_least k m n h b = elim (Bool-cases (o.leq n m)) [
    | inl below ↦ rw below h
    | inr above ↦ rw above b
  ]

  abbrev taken : Found K A → A → Found K A
  taken st x = record { new_max = raise st.new_max (mark x); handled = st.handled ++ x ∷ [] }

  -- The state after one more item, in the two cases of the test.
  pass_old :
      (last : K) (st : Found K A) (x : A) (xs : List A)
      → o.leq (mark x) last ≡ true
      → foldl (visit mark last) st (x ∷ xs) ≡ foldl (visit mark last) st xs
  unfolding visit
  pass_old last st x xs old = ap (λ s. foldl (visit mark last) s xs) (rw old)

  pass_new :
      (last : K) (st : Found K A) (x : A) (xs : List A)
      → o.leq (mark x) last ≡ false
      → foldl (visit mark last) st (x ∷ xs) ≡ foldl (visit mark last) (taken st x) xs
  unfolding visit
  pass_new last st x xs new = ap (λ s. foldl (visit mark last) s xs) (rw new)

  -- The items are handled exactly when their mark is above the last change, in their order.
  pub visit-handled :
      (last : K) (st : Found K A) (xs : List A)
      → (foldl (visit mark last) st xs).handled ≡ st.handled ++ select (is_fresh last) xs
  visit-handled last st [] = sym (append-nil st.handled)
  visit-handled last st (x ∷ xs) = elim (Bool-cases (o.leq (mark x) last)) [
    | inl old ↦ rw (pass_old last st x xs old, old) (visit-handled last st xs)
    | inr new ↦
        rw (pass_new last st x xs new, new)
          (visit-handled last (taken st x) xs
            ∙ append_assoc st.handled (x ∷ []) (select (is_fresh last) xs))
  ]

  pub visit_grows :
      (last : K) (st : Found K A) (xs : List A)
      → o.leq st.new_max (foldl (visit mark last) st xs).new_max ≡ true
  visit_grows last st [] = o.leq_refl st.new_max
  visit_grows last st (x ∷ xs) = elim (Bool-cases (o.leq (mark x) last)) [
    | inl old ↦ rw (pass_old last st x xs old) (visit_grows last st xs)
    | inr new ↦
        rw (pass_new last st x xs new) (
          o.leq_trans _ _ _ (leq-raise_left st.new_max (mark x)) (visit_grows last (taken st x) xs))
  ]

  -- No handled item has a mark above the new maximum.
  pub visit_covers :
      (last : K) (st : Found K A) (xs : List A)
      → All
          (λ x. o.leq (mark x) (foldl (visit mark last) st xs).new_max ≡ true)
          (select (is_fresh last) xs)
  visit_covers last st [] = tt
  visit_covers last st (x ∷ xs) = elim (Bool-cases (o.leq (mark x) last)) [
    | inl old ↦ rw (pass_old last st x xs old, old) (visit_covers last st xs)
    | inr new ↦
        rw (pass_new last st x xs new, new)
          (
            o.leq_trans _ _ _ (leq-raise_right st.new_max (mark x))
                (visit_grows last (taken st x) xs),
            visit_covers last (taken st x) xs,
          )
  ]

  -- The new maximum is the old one or the mark of an item, and so below all that is above these.
  pub visit_tight :
      (last : K) (st : Found K A) (k : K) (xs : List A)
      → o.leq k st.new_max ≡ false
      → All (λ y. o.leq k (mark y) ≡ false) xs
      → o.leq k (foldl (visit mark last) st xs).new_max ≡ false
  visit_tight last st k [] h b = h
  visit_tight last st k (x ∷ xs) h b = elim (Bool-cases (o.leq (mark x) last)) [
    | inl old ↦ rw (pass_old last st x xs old) (visit_tight last st k xs h b.1)
    | inr new ↦
        rw (pass_new last st x xs new)
          (visit_tight last (taken st x) k xs (leq-raise_least k st.new_max (mark x) h b.0) b.1)
  ]
