-- ===== src/Command/Allocations.antt =====
-- command/allocations/app.go: an event of a task of an allocation is an update of its own.
pub mod Laws
pub mod Updates
pub mod Order
use nomad_firehose.Base.{
  ℕ, ◌++◌, map, List, [], ◌∷◌, Bool, Option, none, some, String, ◌==◌, if◌then◌else◌, foldl, gather,
}
use nomad_firehose.Base.Int.{ℤ, leb_ℤ}
use nomad_firehose.Go.Value.{Value, int, int64}
use nomad_firehose.Helper.Runner.{Runner}
use nomad_firehose.Command.Nomad.{TaskEvent, TaskState, Allocation}
use nomad_firehose.Command.Watch.{Response, failed, listed, Watch, Found}

pub record Firehose : Type 0 where
  pub last_change_time : ℤ  -- int64

pub record AllocationUpdate : Type 0 where
  pub name : String
  pub node_id : String
  pub allocation_id : String
  pub desired_status : String
  pub desired_description : String
  pub client_status : String
  pub client_description : String
  pub job_id : String
  pub group_name : String
  pub task_name : String
  pub eval_id : String
  pub task_state : String
  pub task_failed : Bool
  pub task_started_at : ℕ
  pub task_finished_at : ℕ
  pub task_event : TaskEvent

abbrev pub runner_name : String
runner_name = "allocations"

unfoldable pub set_restore_value : Value → Firehose → Option Firehose
set_restore_value (int v) f = some (record f { last_change_time = v })
set_restore_value (int64 v) f = some (record f { last_change_time = v })
set_restore_value _ f = none

unfoldable pub update : Firehose → Value
update f = int64 f.last_change_time

unfoldable pub start_watch : Firehose → Watch ℤ
start_watch f = record {
  wait_index = 1;
  new_max = f.last_change_time;
  last_change = f.last_change_time;
}

unfoldable pub payload : Allocation → String → TaskState → TaskEvent → AllocationUpdate
payload a task_name info e = record {
  name = a.name;
  node_id = a.node_id;
  allocation_id = a.id;
  desired_status = a.desired_status;
  desired_description = a.desired_description;
  client_status = a.client_status;
  client_description = a.client_description;
  job_id = a.job_id;
  group_name = a.task_group;
  task_name = task_name;
  eval_id = a.eval_id;
  task_state = info.state;
  task_failed = info.failed;
  task_started_at = info.started_at;
  task_finished_at = info.finished_at;
  task_event = e;
}

-- The three loops, from the innermost: events, tasks, allocations.
module _ (last : ℤ) where
  unfoldable pub visit_event :
      Allocation
      → String
      → TaskState
      → Found ℤ AllocationUpdate
      → TaskEvent
      → Found ℤ AllocationUpdate
  unfolding payload
  visit_event a task_name info st e = if leb_ℤ e.time last then st else record {
    new_max = if leb_ℤ e.time st.new_max then st.new_max else e.time;
    handled = st.handled ++ payload a task_name info e ∷ [];
  }

  unfoldable pub visit_task :
      Allocation → Found ℤ AllocationUpdate → String × TaskState → Found ℤ AllocationUpdate
  unfolding visit_event
  visit_task a st (task_name, info) = foldl (visit_event a task_name info) st info.events

  unfoldable pub visit_allocation : Found ℤ AllocationUpdate → Allocation → Found ℤ AllocationUpdate
  unfolding visit_task
  visit_allocation st a = foldl (visit_task a) st a.task_states

-- One turn of `watch`, with the updates that it publishes.
unfoldable pub watch_round : Watch ℤ → Response Allocation → Watch ℤ × List AllocationUpdate
unfolding visit_allocation
watch_round w failed = (w, [])
watch_round w (listed allocations last_index) =
    if last_index == w.wait_index
    then (w, [])
    else let found =
        foldl (visit_allocation w.last_change) (record { new_max = w.new_max; handled = [] })
          allocations in
      (
        record { wait_index = last_index; new_max = found.new_max; last_change = found.new_max },
        found.handled,
      )

unfoldable pub watch : Watch ℤ → List (Response Allocation) → Watch ℤ × List AllocationUpdate
watch w [] = (w, [])
watch w (r ∷ rs) =
    let (w1, out) = watch_round w r in let (w2, rest) = watch w1 rs in (w2, out ++ rest)

abbrev pub runner : Runner
runner = record {
  State = Firehose;
  name = runner_name;
  set_restore_value = set_restore_value;
  update = update;
}
