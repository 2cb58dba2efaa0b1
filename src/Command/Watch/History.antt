-- ===== src/Command/Watch/History.antt =====
-- The shared loop of command/ against a history of changes.
use mathlib.Core.List.{mem-append_left, mem-append_right, Mem-prop}
use mathlib.Core.HLevel.{Π_prop}
use nomad_firehose.Base.{
  ℕ, ◌≡◌, ◌≢◌, refl, ap, ◌⊎◌, inl, inr, not, false, List, [], ◌∷◌, ◌++◌, append_assoc, All,
  All-append, All_mono, All_mono_mem, All-mem, All-left, All-right, mem-select, gather, select, Mem,
}
use nomad_firehose.Base.Order.{Order}
use nomad_firehose.Command.Watch.{Response, failed, listed, Watch, run, IsSettled}
use nomad_firehose.Command.Watch.Visit.{is_fresh, visit_tight}
use nomad_firehose.Command.Watch.Runs.{next, round_failed, round_same, round_news}

abbrev pub items_of {ℓ} : {A : Type ℓ} → Response A → List A
items_of failed = []
items_of (listed items _) = items

module _ {ℓ} {K A : Type ℓ} ⦃o : Order K⦄ (mark : A → K) (floor : K) where
  -- `k` is above the mark of each item.
  abbrev pub Above : K → List A → Type 0
  Above k xs = All (λ y. o.leq k (mark y) ≡ false) xs

  -- A listed item was listed before, if it is above the floor, or it is a new change.
  abbrev pub Known : List A → A → Type ℓ
  Known seen x = o.leq (mark x) floor ≡ false → Mem x seen

  abbrev pub Admits : List A → A → Type ℓ
  Admits seen x = Known seen x ⊎ ((o.leq (mark x) floor ≡ false) × Above (mark x) seen)

  -- The answers of a Nomad server: while `LastIndex` stays, nothing new is listed, and a new change
  -- is above all that was listed before.
  abbrev pub IsHistory : ℕ → List A → List (Response A) → Type ℓ
  IsHistory i seen [] = Unit
  IsHistory i seen (failed ∷ rs) = IsHistory i seen rs
  IsHistory i seen (listed items j ∷ rs) =
      ((j ≡ i) × All (Known seen) items × IsHistory i seen rs)
      ⊎ ((j ≢ i) × All (Admits seen) items × IsHistory j (items ++ seen) rs)

  -- The change was handled, if it is above the floor.
  abbrev pub Reached : List A → A → Type ℓ
  Reached sent x = o.leq (mark x) floor ≡ false → Mem x sent

  record Along (w : Watch K) (seen sent : List A) : Type ℓ where
    settled : IsSettled w
    tight : (k : K) → o.leq k floor ≡ false → Above k seen → o.leq k w.last_change ≡ false
    reached : All (Reached sent) seen

  abbrev handled_of : Watch K → List A → List A
  handled_of w items = select (is_fresh mark w.last_change) items

  Reached_more : (sent more xs : List A) → All (Reached sent) xs → All (Reached (sent ++ more)) xs
  Reached_more sent more xs = All_mono _ _ xs λ x r f. mem-append_left more (r f)

  Known-Reached :
      (seen sent : List A) (x : A) → All (Reached sent) seen → Known seen x → Reached sent x
  Known-Reached seen sent x h k f =
      All-mem (Reached sent) (λ y. Π_prop λ g. Mem-prop) seen x (k f) h f

  news-Reached :
      (w : Watch K) (seen sent items : List A)
      → Along w seen sent
      → All (Admits seen) items
      → All (Reached (sent ++ handled_of w items)) items
  news-Reached w seen sent items a = All_mono_mem _ _ items λ x m admits f. elim admits [
    | inl known ↦ mem-append_left _ (Known-Reached seen sent x a.reached known f)
    | inr new ↦
        mem-append_right sent (
          mem-select (is_fresh mark w.last_change) items x (ap not (a.tight (mark x) new.0 new.1))
            m)
  ]

  next-tight :
      (w : Watch K) (seen sent items : List A) (j : ℕ)
      → Along w seen sent
      → (k : K) → o.leq k floor ≡ false
      → Above k (items ++ seen)
      → o.leq k (next mark w items j).last_change ≡ false
  next-tight w seen sent items j a k h b =
      visit_tight mark w.last_change (record { new_max = w.new_max; handled = [] }) k items
        (rw a.settled (a.tight k h (All-right _ items seen b))) (All-left _ items seen b)

  Along-next :
      (w : Watch K) (seen sent items : List A) (j : ℕ)
      → Along w seen sent
      → All (Admits seen) items
      → Along (next mark w items j) (items ++ seen) (sent ++ handled_of w items)
  Along-next w seen sent items j a h = record {
    settled = refl;
    tight = next-tight w seen sent items j a;
    reached =
        All-append _ items seen (news-Reached w seen sent items a h)
          (Reached_more _ _ seen a.reached);
  }

  delivers_along :
      (w : Watch K) (seen sent : List A) (rs : List (Response A))
      → Along w seen sent
      → IsHistory w.wait_index seen rs
      → All (Reached (sent ++ (run mark w rs).1)) (gather items_of rs)
  unfolding run
  delivers_along w seen sent [] a h = tt
  delivers_along w seen sent (failed ∷ rs) a h =
      rw (round_failed mark w) (delivers_along w seen sent rs a h)
  delivers_along w seen sent (listed items j ∷ rs) a (inl (e, known, h)) =
      rw (round_same mark w items j e) (
        All-append _ items _
          (Reached_more sent _ items
            (All_mono _ _ items (λ x. Known-Reached seen sent x a.reached) known))
          (delivers_along w seen sent rs a h))
  delivers_along w seen sent (listed items j ∷ rs) a (inr (ne, admits, h)) =
      rw (round_news mark w items j ne, ← append_assoc)
        (All-append _ items _ (Reached_more _ _ items (news-Reached w seen sent items a admits)) (
          delivers_along (next mark w items j) (items ++ seen) (sent ++ handled_of w items) rs
            (Along-next w seen sent items j a admits) h))

-- When `newMax` and the last change agree at the start, and the answers are those of a server
-- that lists nothing new while `LastIndex` stays and gives each new change a higher mark than all
-- that it listed before, every listed change whose mark is above the last change of the start is
-- handled by the time the run has taken all the answers.
pub run_delivers {ℓ} :
    {K A : Type ℓ} ⦃o : Order K⦄ (mark : A → K) (w : Watch K) (rs : List (Response A))
    → IsSettled w
    → IsHistory mark w.last_change w.wait_index [] rs
    → All (Reached mark w.last_change (run mark w rs).1) (gather items_of rs)
run_delivers mark w rs s h =
    delivers_along mark w.last_change w [] [] rs
      (record { settled = s; tight = λ k f b. f; reached = tt }) h
