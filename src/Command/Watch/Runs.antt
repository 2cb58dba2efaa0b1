-- ===== src/Command/Watch/Runs.antt =====
-- Turns of a watcher, one after the other.
use nomad_firehose.Base.{
  ℕ, ◌≡◌, ◌≢◌, refl, ap, true, false, inl, inr, List, [], ◌∷◌, ◌++◌, foldl, map, All, All_mono,
  All-append, select, select-All, ◌==◌, ==_iff, Bool-cases, Mem, All-mem_test, ℕ_discrete, subst,
}
use mathlib.Core.List.{map-append}
use nomad_firehose.Base.Order.{Order}
use nomad_firehose.Command.Watch.{
  Response, failed, listed, Watch, Found, visit, round, run, turns, IsSettled,
}
use nomad_firehose.Command.Watch.Visit.{is_fresh, visit-handled, visit_grows, visit_covers}

module _ {ℓ} {K A : Type ℓ} ⦃o : Order K⦄ (mark : A → K) where
  abbrev pub pass : Watch K → List A → Found K A
  pass w items =
      foldl (visit mark w.last_change) (record { new_max = w.new_max; handled = [] }) items

  pub round_failed : (w : Watch K) → round mark w failed ≡ (w, [])
  unfolding round
  round_failed w = refl

  pub round_same :
      (w : Watch K) (items : List A) (i : ℕ)
      → i ≡ w.wait_index
      → round mark w (listed items i) ≡ (w, [])
  unfolding round
  round_same w items i e = rw ((==_iff i w.wait_index).1 e)

  abbrev pub next : Watch K → List A → ℕ → Watch K
  next w items i = record {
    wait_index = i;
    new_max = (pass w items).new_max;
    last_change = (pass w items).new_max;
  }

  pub round_news :
      (w : Watch K) (items : List A) (i : ℕ)
      → i ≢ w.wait_index
      → round mark w (listed items i) ≡ (next w items i, select (is_fresh mark w.last_change) items)
  unfolding round
  round_news w items i ne = elim (Bool-cases (i == w.wait_index)) [
    | inl e ↦ absurd (ne ((==_iff i w.wait_index).0 e))
    | inr d ↦ rw d (
        ap {B = Watch K × List A} (λ l. (next w items i, l))
          (visit-handled mark w.last_change (record { new_max = w.new_max; handled = [] }) items))
  ]

  -- What turns keep: the mark only grows, and it parts what was handled from what comes.
  pub record Turn (w w' : Watch K) (out : List A) : Type ℓ where
    pub settled : IsSettled w'
    pub grows : o.leq w.last_change w'.last_change ≡ true
    pub fresh : All (λ x. is_fresh mark w.last_change x ≡ true) out
    pub covered : All (λ x. o.leq (mark x) w'.last_change ≡ true) out

  pub still : (w : Watch K) → IsSettled w → Turn w w []
  still w s = record { settled = s; grows = o.leq_refl w.last_change; fresh = tt; covered = tt }

  news-Turn :
      (w : Watch K) (items : List A) (i : ℕ)
      → IsSettled w
      → Turn w (next w items i) (select (is_fresh mark w.last_change) items)
  news-Turn w items i s = record {
    settled = refl;
    grows =
        subst (λ k. o.leq k (pass w items).new_max ≡ true) s
          (visit_grows mark w.last_change (record { new_max = w.new_max; handled = [] }) items);
    fresh = select-All (is_fresh mark w.last_change) items;
    covered = visit_covers mark w.last_change (record { new_max = w.new_max; handled = [] }) items;
  }

  pub round-Turn :
      (w : Watch K) (r : Response A) → IsSettled w → Turn w (round mark w r).0 (round mark w r).1
  unfolding round
  round-Turn w failed s = still w s
  round-Turn w (listed items i) s = elim (ℕ_discrete i w.wait_index) [
    | yes e ↦ rw (round_same w items i e) (still w s)
    | no ne ↦ rw (round_news w items i ne) (news-Turn w items i s)
  ]

  fresh_down :
      (a b : K) (x : A) → o.leq a b ≡ true → is_fresh mark b x ≡ true → is_fresh mark a x ≡ true
  fresh_down a b x h f = elim (Bool-cases (o.leq (mark x) a)) [
    | inl below ↦ cc (o.leq_trans (mark x) a b below h)
    | inr above ↦ rw above refl
  ]

  pub Turn-trans :
      (w w1 w2 : Watch K) (out rest : List A)
      → Turn w w1 out
      → Turn w1 w2 rest
      → Turn w w2 (out ++ rest)
  Turn-trans w w1 w2 out rest t u = record {
    settled = u.settled;
    grows = o.leq_trans _ _ _ t.grows u.grows;
    fresh =
        All-append _ out rest t.fresh
          (All_mono _ _ rest (λ x f. fresh_down _ _ x t.grows f) u.fresh);
    covered =
        All-append _ out rest (All_mono _ _ out (λ x c. o.leq_trans _ _ _ c u.grows) t.covered)
          u.covered;
  }

  pub run-Turn :
      (w : Watch K) (rs : List (Response A))
      → IsSettled w
      → Turn w (run mark w rs).0 (run mark w rs).1
  unfolding run
  run-Turn w [] s = still w s
  run-Turn w (r ∷ rs) s =
      let t = round-Turn w r s in Turn-trans _ _ _ _ _ t (run-Turn (round mark w r).0 rs t.settled)

  -- When `newMax` and the last change agree at the start, an item that is handled in a later
  -- stretch of a run has a higher mark than every item that was handled before: none is handled
  -- twice at one mark.
  pub run_rises :
      (w : Watch K) (before after : List (Response A)) (x y : A)
      → IsSettled w
      → Mem x (run mark w before).1
      → Mem y (run mark (run mark w before).0 after).1
      → o.leq (mark y) (mark x) ≡ false
  run_rises w before after x y s mx my = elim (Bool-cases (o.leq (mark y) (mark x))) [
    | inl down ↦ cc (fresh_down (mark y) _ y (o.leq_trans _ _ _ down old) new, o.leq_refl (mark y))
    | inr up ↦ up
  ]
    where
      first : Turn w (run mark w before).0 (run mark w before).1
      first = run-Turn w before s

      old : o.leq (mark x) (run mark w before).0.last_change ≡ true
      old = All-mem_test _ _ _ x mx first.covered

      new : is_fresh mark (run mark w before).0.last_change y ≡ true
      new = All-mem_test _ _ _ y my (run-Turn _ after first.settled).fresh

  -- An item whose mark is not above the last change is never handled.
  pub run_late_never :
      (w : Watch K) (rs : List (Response A)) (x : A)
      → IsSettled w
      → o.leq (mark x) w.last_change ≡ true
      → ¬ Mem x (run mark w rs).1
  run_late_never w rs x s late m =
      cc (late, All-mem_test (is_fresh mark w.last_change) true _ x m (run-Turn w rs s).fresh)

-- A firehose that does `h` for each item that it handles does so for the items of the plain run.
pub turns-run {ℓ} :
    {K A E : Type ℓ} ⦃o : Order K⦄ (mark : A → K) (h : A → E)
    (turn : Watch K → Response A → Watch K × List E)
    → ((w : Watch K) (r : Response A) → turn w r ≡ ((round mark w r).0, map h (round mark w r).1))
    → (w : Watch K) (rs : List (Response A))
    → turns turn w rs ≡ ((run mark w rs).0, map h (run mark w rs).1)
unfolding turns run
turns-run mark h turn e w [] = refl
turns-run mark h turn e w (r ∷ rs) =
    rw (e w r, turns-run mark h turn e (round mark w r).0 rs, map-append) refl
