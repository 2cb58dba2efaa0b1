-- ===== src/Command/Evaluations/Laws.antt =====
-- Lemmas on the watcher of command/evaluations/app.go.
use mathlib.Core.List.{mem-cons_self, mem-cons_of_mem, mem-cons, Mem-prop}
use mathlib.Core.Logic.Or
use nomad_firehose.Base.{
  ℕ, ◌≡◌, ◌≢◌, refl, sym, ap, ◌∙◌, List, [], ◌∷◌, ◌++◌, foldl, append_assoc, append-nil, select,
  All, All-mem, All_mono, All-append, select-All, All-mem_test, Mem, true, subst, Bool, Bool-cases,
  inl, inr, ◌==◌, ==_iff, ℕ_discrete,
}
use nomad_firehose.Command.Watch.{Response, failed, listed}
use nomad_firehose.Command.Evaluations.{Evaluation, EvalWatch, visit, watch_round, watch}

visit-select :
    (last : ℕ) (out es : List Evaluation)
    → foldl (visit last) out es ≡ out ++ select (λ e. e.modify_index == last) es
unfolding visit
visit-select last out [] = sym (append-nil out)
visit-select last out (e ∷ es) = elim (Bool-cases (e.modify_index == last)) [
  | inl hit ↦ rw hit (visit-select last (out ++ e ∷ []) es ∙ append_assoc out (e ∷ []) _)
  | inr miss ↦ rw miss (visit-select last out es)
]

abbrev pub is_hit : EvalWatch → Evaluation → Bool
is_hit w e = e.modify_index == w.last_change_index

-- When an answer has another `LastIndex` than the last change index, a turn publishes, in order,
-- exactly the evaluations whose index equals the last change index, and takes the new `LastIndex`
-- over.
pub evaluations_exact :
    (w : EvalWatch) (es : List Evaluation) (j : ℕ)
    → j ≢ w.last_change_index
    → watch_round w (listed es j)
      ≡ (record { wait_index = j; last_change_index = j }, select (is_hit w) es)
unfolding watch_round
evaluations_exact w es j ne = elim (Bool-cases (j == w.last_change_index)) [
  | inl e ↦ absurd (ne ((==_iff j w.last_change_index).0 e))
  | inr d ↦ rw d (
      ap {B = EvalWatch × List Evaluation}
        (λ l. (record { wait_index = j; last_change_index = j }, l))
        (visit-select w.last_change_index [] es))
]

pub watch_round_same :
    (w : EvalWatch) (es : List Evaluation) (j : ℕ)
    → j ≡ w.last_change_index
    → watch_round w (listed es j) ≡ (w, [])
unfolding watch_round
watch_round_same w es j e = rw ((==_iff j w.last_change_index).1 e)

-- When an evaluation bears the `LastIndex` of the answer that lists it, and this index differs
-- from the last change index, the turn does not publish it.
news_unpublished :
    (w : EvalWatch) (es : List Evaluation) (e : Evaluation)
    → e.modify_index ≢ w.last_change_index
    → ¬ Mem e (watch_round w (listed es e.modify_index)).1
news_unpublished w es e ne m = ne (
    (==_iff e.modify_index w.last_change_index).0 (
      All-mem_test (is_hit w) true (select (is_hit w) es) e
        (subst (λ r. Mem e r.1) (evaluations_exact w es e.modify_index ne) m)
        (select-All (is_hit w) es)))

-- The values of `LastIndex` in the answers.
abbrev pub last_indexes : List (Response Evaluation) → List ℕ
last_indexes [] = []
last_indexes (failed ∷ rs) = last_indexes rs
last_indexes (listed _ j ∷ rs) = j ∷ last_indexes rs

abbrev pub AtEnd : EvalWatch → List (Response Evaluation) → Evaluation → Type 0
AtEnd w rs e = Mem e.modify_index (w.last_change_index ∷ last_indexes rs)

watch_round_failed : (w : EvalWatch) → watch_round w failed ≡ (w, [])
unfolding watch_round
watch_round_failed w = refl

mem-widen : (a b x : ℕ) (l : List ℕ) → Mem x (a ∷ l) → Mem x (a ∷ b ∷ l)
mem-widen a b x l m =
    Or.elim Mem-prop (mem-cons.0 m) (λ e. rw e mem-cons_self)
      (λ t. mem-cons_of_mem a (mem-cons_of_mem b t))

pub AtEnd-all : (w : EvalWatch) (rs : List (Response Evaluation)) → All (AtEnd w rs) (watch w rs).1
unfolding watch
AtEnd-all w [] = tt
AtEnd-all w (failed ∷ rs) = rw (watch_round_failed w) (AtEnd-all w rs)
AtEnd-all w (listed es j ∷ rs) = elim (ℕ_discrete j w.last_change_index) [
  | yes e ↦ rw (watch_round_same w es j e) (
      All_mono _ _ _ (λ x. mem-widen w.last_change_index j x.modify_index (last_indexes rs))
        (AtEnd-all w rs))
  | no ne ↦ rw (evaluations_exact w es j ne) (
      All-append _ (select (is_hit w) es) _
        (All_mono (λ x. is_hit w x ≡ true) (AtEnd w (listed es j ∷ rs)) (select (is_hit w) es)
          (λ x h. rw ((==_iff x.modify_index w.last_change_index).0 h) mem-cons_self)
          (select-All (is_hit w) es))
        (All_mono _ _ _ (λ x. mem-cons_of_mem w.last_change_index)
          (AtEnd-all (record { wait_index = j; last_change_index = j }) rs)))
]

-- Over any run of the evaluations watcher, an evaluation is published only if its index is the
-- last change index of the start or the `LastIndex` of one of the answers: a change at an index
-- in between is never published.
pub watch_at_ends :
    (w : EvalWatch) (rs : List (Response Evaluation)) (e : Evaluation)
    → Mem e (watch w rs).1
    → Mem e.modify_index (w.last_change_index ∷ last_indexes rs)
watch_at_ends w rs e m = All-mem (AtEnd w rs) (λ x. Mem-prop) _ e m (AtEnd-all w rs)
