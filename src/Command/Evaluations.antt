-- ===== src/Command/Evaluations.antt =====
-- command/evaluations/app.go. This watcher compares indexes for equality, and publishes what the
-- list holds.
pub mod Laws
pub mod Runs
use nomad_firehose.Base.{
  ℕ, ◌++◌, map, List, [], ◌∷◌, Option, none, some, String, ◌==◌, if◌then◌else◌, foldl,
}
use nomad_firehose.Go.Value.{Value, int, int64, uint64, to_uint64, Bytes}
use nomad_firehose.Helper.Runner.{Runner}
use nomad_firehose.Command.Watch.{Response, failed, listed}
use nomad_firehose.Command.Publish.{publish}

pub record Firehose : Type 0 where
  pub last_change_index : ℕ  -- uint64

abbrev pub name : String
name = "evaluations"

unfoldable pub set_restore_value : Value → Firehose → Option Firehose
unfolding to_uint64
set_restore_value (int v) f = some (record f { last_change_index = to_uint64 v })
set_restore_value (int64 v) f = some (record f { last_change_index = to_uint64 v })
set_restore_value _ f = none

unfoldable pub update : Firehose → Value
update f = uint64 f.last_change_index

pub record Evaluation : Type 0 where
  pub id : String
  pub modify_index : ℕ

-- `q.WaitIndex` and the field `lastChangeIndex`.
pub record EvalWatch : Type 0 where
  pub wait_index : ℕ
  pub last_change_index : ℕ

unfoldable pub start_watch : Firehose → EvalWatch
start_watch f = record { wait_index = f.last_change_index; last_change_index = f.last_change_index }

-- The body of the loop over the evaluations: what has been published so far, and one more.
unfoldable pub visit : ℕ → List Evaluation → Evaluation → List Evaluation
visit last out e = if e.modify_index == last then out ++ e ∷ [] else out

-- One turn of `watch`, with the evaluations that it publishes.
unfoldable pub watch_round : EvalWatch → Response Evaluation → EvalWatch × List Evaluation
unfolding visit
watch_round w failed = (w, [])
watch_round w (listed evaluations last_index) =
    if last_index == w.last_change_index then (w, []) else (
      record { wait_index = last_index; last_change_index = last_index },
      foldl (visit w.last_change_index) [] evaluations,
    )

unfoldable pub watch : EvalWatch → List (Response Evaluation) → EvalWatch × List Evaluation
watch w [] = (w, [])
watch w (r ∷ rs) =
    let (w1, out) = watch_round w r in let (w2, rest) = watch w1 rs in (w2, out ++ rest)

-- `watch` with the calls of `Publish`: the firehose after the answers, and what it has put into the sink.
unfoldable pub firehose :
    (Evaluation → Option Bytes) → Firehose → List (Response Evaluation) → Firehose × List Bytes
unfolding watch publish start_watch
firehose marshal f rs =
    let (w, evaluations) = watch (start_watch f) rs in
    (record f { last_change_index = w.last_change_index }, map (publish marshal) evaluations)

abbrev pub runner : Runner
runner = record {
  State = Firehose;
  name = name;
  set_restore_value = set_restore_value;
  update = update;
}
