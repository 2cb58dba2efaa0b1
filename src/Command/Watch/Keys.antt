-- ===== src/Command/Watch/Keys.antt =====
-- The shared loop of command/ over items that differ although they tell of the same change: what is known of
-- an item is its key, which has its mark.
use mathlib.Core.List.{map-append, exists_of_mem-map, mem-map_of_mem}
use mathlib.Core.Logic.{∥∥₁_map}
use nomad_firehose.Base.{
  All-left, All-right, All-append, ◌≡◌, refl, ap, ◌∙◌, subst, false, inl, inr, List, [], ◌∷◌, foldl,
  map, gather, All, Mem, Bool-cases, ◌==◌,
}
use nomad_firehose.Base.Order.{Order}
use nomad_firehose.Command.Watch.{
  Response, failed, listed, Watch, Found, visit, round, run, IsSettled,
}
use nomad_firehose.Command.Watch.History.{IsHistory, items_of, run_delivers}

module _ {K A B : Type 0} ⦃o : Order K⦄ (key : A → B) (mark : B → K) where
  abbrev pub keyed : Response A → Response B
  keyed failed = failed
  keyed (listed items j) = listed (map key items) j

  -- The mark of an item.
  abbrev pub mark_of : A → K
  mark_of x = mark (key x)

  abbrev found_keys : Found K A → Found K B
  found_keys f = record { new_max = f.new_max; handled = map key f.handled }

  visit-keys :
      (last : K) (f : Found K A) (x : A)
      → visit mark last (found_keys f) (key x) ≡ found_keys (visit mark_of last f x)
  unfolding visit
  visit-keys last f x = elim (Bool-cases (o.leq (mark (key x)) last)) [
    | inl old ↦ rw old refl
    | inr new ↦ rw (new, map-append key f.handled (x ∷ [])) refl
  ]

  visit_all-keys :
      (last : K) (f : Found K A) (xs : List A)
      → foldl (visit mark last) (found_keys f) (map key xs)
        ≡ found_keys (foldl (visit mark_of last) f xs)
  visit_all-keys last f [] = refl
  visit_all-keys last f (x ∷ xs) =
      ap (λ g. foldl (visit mark last) g (map key xs)) (visit-keys last f x)
      ∙ visit_all-keys last (visit mark_of last f x) xs

  round-keys :
      (w : Watch K) (r : Response A)
      → round mark w (keyed r) ≡ ((round mark_of w r).0, map key (round mark_of w r).1)
  unfolding round
  round-keys w failed = refl
  round-keys w (listed items j) = elim (Bool-cases (j == w.wait_index)) [
    | inl same ↦ rw same refl
    | inr news ↦
        rw (news, visit_all-keys w.last_change (record { new_max = w.new_max; handled = [] }) items)
          refl
  ]

  run-keys :
      (w : Watch K) (rs : List (Response A))
      → run mark w (map keyed rs) ≡ ((run mark_of w rs).0, map key (run mark_of w rs).1)
  unfolding run
  run-keys w [] = refl
  run-keys w (r ∷ rs) = rw (round-keys w r, run-keys (round mark_of w r).0 rs, map-append) refl

  All-key : (P : B → Type 0) (xs : List A) → All P (map key xs) → All (λ x. P (key x)) xs
  All-key P [] h = tt
  All-key P (x ∷ xs) h = (h.0, All-key P xs h.1)

  items-keyed :
      (P : B → Type 0) (rs : List (Response A))
      → All P (gather items_of (map keyed rs))
      → All (λ x. P (key x)) (gather items_of rs)
  items-keyed P [] h = tt
  items-keyed P (failed ∷ rs) h = items-keyed P rs h
  items-keyed P (listed items j ∷ rs) h =
      All-append (λ x. P (key x)) items (gather items_of rs)
        (All-key P items (All-left P (map key items) (gather items_of (map keyed rs)) h))
        (items-keyed P rs (All-right P (map key items) (gather items_of (map keyed rs)) h))

  -- Some item with the same key was handled.
  pub keys_delivered :
      (w : Watch K) (rs : List (Response A))
      → IsSettled w
      → IsHistory mark w.last_change w.wait_index [] (map keyed rs)
      → All
          (λ x.
            o.leq (mark_of x) w.last_change ≡ false → Mem (key x) (map key (run mark_of w rs).1))
          (gather items_of rs)
  keys_delivered w rs s h =
      items-keyed (λ b. o.leq (mark b) w.last_change ≡ false → Mem b (map key (run mark_of w rs).1))
        rs
        (subst
          (λ r.
            All (λ b. o.leq (mark b) w.last_change ≡ false → Mem b r.1)
              (gather items_of (map keyed rs)))
          (run-keys w rs) (run_delivers mark w (map keyed rs) s h))

-- What is put for some item with the key of `x` is in `In`.
module _ {A B D : Type 0} (key : A → B) (put : A → D) where
  abbrev pub Carried : (D → Type 0) → A → Type 0
  Carried In x = ∥ ((y : A) × (key y ≡ key x) × In (put y)) ∥₁

  pub Carried-map :
      (xs : List A) (x : A) → Mem (key x) (map key xs) → Carried (λ d. Mem d (map put xs)) x
  Carried-map xs x m = ∥∥₁_map (exists_of_mem-map m) (λ (y, m', e). (y, e, mem-map_of_mem put m'))

  pub Carried-mono :
      (In Out : D → Type 0) (x : A) → ((d : D) → In d → Out d) → Carried In x → Carried Out x
  Carried-mono In Out x h c = ∥∥₁_map c (λ (y, e, m). (y, e, h (put y) m))
