-- ===== src/Command/Evaluations/Runs.antt =====
-- Runs of the watcher of command/evaluations/app.go, and what of them comes to a sink.
use mathlib.Core.List.{mem-map_of_mem, mem-append_left, mem-append_right}
use nomad_firehose.Base.{
  false, ℕ, ◌≡◌, ◌≢◌, refl, sym, ap, ◌∙◌, List, [], ◌∷◌, ◌++◌, Option, All, Mem, ==_iff,
  append_assoc, mem-select, ℕ_discrete,
}
use nomad_firehose.Go.Value.{Bytes}
use nomad_firehose.Command.Watch.{Response, failed, listed}
use nomad_firehose.Command.Publish.{publish}
use nomad_firehose.Command.Evaluations.{
  Evaluation, EvalWatch, Firehose, start_watch, watch_round, watch, firehose,
}
use nomad_firehose.Command.Evaluations.Laws.{evaluations_exact, watch_round_same, is_hit}
use nomad_firehose.Sink.Config.{Sink}
use nomad_firehose.Sink.Mailbox.Laws.{Holds}
use nomad_firehose.Sink.Interface.{Reach}
use nomad_firehose.Sink.Launch.{Libraries, implementation}
use nomad_firehose.Sink.Launch.Settle.{SomeWriter, Completes, completes}

watch-append :
    (w : EvalWatch) (rs ss : List (Response Evaluation))
    → watch w (rs ++ ss)
      ≡ ((watch (watch w rs).0 ss).0, (watch w rs).1 ++ (watch (watch w rs).0 ss).1)
unfolding watch
watch-append w [] ss = refl
watch-append w (r ∷ rs) ss = rw (watch-append (watch_round w r).0 rs ss) (
    ap {B = EvalWatch × List Evaluation} (λ l. ((watch (watch (watch_round w r).0 rs).0 ss).0, l))
      (sym (append_assoc (watch_round w r).1 _ _)))

-- After an answer, the last change index is that of the answer.
last_taken :
    (w : EvalWatch) (es : List Evaluation) (j : ℕ)
    → (watch_round w (listed es j)).0.last_change_index ≡ j
last_taken w es j = elim (ℕ_discrete j w.last_change_index) [
  | yes e ↦ rw (watch_round_same w es j e) (sym e)
  | no ne ↦ rw (evaluations_exact w es j ne) refl
]

-- An answer that leaves the last change index as it is.
abbrev pub Stays : ℕ → Response Evaluation → Type 0
Stays j failed = Unit
Stays j (listed _ i) = i ≡ j

watch-Stays :
    (w : EvalWatch) (j : ℕ) (rs : List (Response Evaluation))
    → w.last_change_index ≡ j
    → All (Stays j) rs
    → (watch w rs).0.last_change_index ≡ j
unfolding watch watch_round
watch-Stays w j [] e h = e
watch-Stays w j (failed ∷ rs) e h = watch-Stays w j rs e h.1
watch-Stays w j (listed es i ∷ rs) e h =
    watch-Stays (watch_round w (listed es i)).0 j rs (last_taken w es i ∙ h.0) h.1

-- An answer whose last index is new publishes what it lists with the last change index.
hit_published :
    (w : EvalWatch) (es : List Evaluation) (j : ℕ) (e : Evaluation)
    → j ≢ w.last_change_index
    → Mem e es
    → e.modify_index ≡ w.last_change_index
    → Mem e (watch_round w (listed es j)).1
hit_published w es j e ne m hit =
    rw (evaluations_exact w es j ne)
      (mem-select (is_hit w) es e ((==_iff e.modify_index w.last_change_index).1 hit) m)

-- An evaluation whose index is the `LastIndex` of one answer, and which the next answer with another
-- `LastIndex` lists, is published.
newest_published :
    (w : EvalWatch) (before middle after : List (Response Evaluation)) (es es' : List Evaluation)
    (j j' : ℕ) (e : Evaluation)
    → All (Stays j) middle
    → j' ≢ j
    → Mem e es'
    → e.modify_index ≡ j
    → Mem e (watch w (before ++ listed es j ∷ (middle ++ listed es' j' ∷ after))).1
unfolding watch
newest_published w before middle after es es' j j' e stays ne m hit =
    let w1 : EvalWatch = (watch w before).0 in
    let w2 : EvalWatch = (watch_round w1 (listed es j)).0 in
    let w3 : EvalWatch = (watch w2 middle).0 in
    let at_j : w3.last_change_index ≡ j = watch-Stays w2 j middle (last_taken w1 es j) stays in
    let published = hit_published w3 es' j' e (λ same. ne (same ∙ at_j)) m (hit ∙ sym at_j) in
    rw
      (
        watch-append w before (listed es j ∷ (middle ++ listed es' j' ∷ after)),
        watch-append w2 middle (listed es' j' ∷ after),
      )
      (mem-append_right (watch w before).1 (
        mem-append_right (watch_round w1 (listed es j)).1
          (mem-append_right (watch w2 middle).1 (mem-append_left _ published))))

-- When one answer to the evaluations watcher has the `LastIndex` `j`, answers that fail or repeat
-- it follow, and then one with another `LastIndex` lists an evaluation with the index `j`, then
-- every sink made by `GetSink` that has accepted what the firehose has published for these
-- answers and any before and after them, one with a writer in its loop if it is of HTTP,
-- RabbitMQ, MongoDB or syslog, and in which `Stop` has not yet closed `stopCh`, can go on to a
-- state in which `Stop` passes and the JSON of that evaluation was handed over.
pub newest_delivered :
    (l : Libraries) (sink : Sink) (marshal : Evaluation → Option Bytes) (f : Firehose)
    (before middle after : List (Response Evaluation)) (es es' : List Evaluation) (j j' : ℕ)
    (e : Evaluation) (s : (implementation l sink).State)
    → All (Stays j) middle
    → j' ≢ j
    → Mem e es'
    → e.modify_index ≡ j
    → SomeWriter l sink
    → Reach
        (implementation l sink)
        (firehose marshal f (before ++ listed es j ∷ (middle ++ listed es' j' ∷ after))).1
        s
    → (implementation l sink).stopped s ≡ false
    → Completes l sink s (Holds (publish marshal e))
unfolding firehose
newest_delivered l sink marshal f before middle after es es' j j' e s stays ne m hit w r o =
    completes l (Holds (publish marshal e)) sink w r o (
      mem-map_of_mem (publish marshal)
        (newest_published (start_watch f) before middle after es es' j j' e stays ne m hit))
