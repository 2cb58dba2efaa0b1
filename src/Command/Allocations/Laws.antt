-- ===== src/Command/Allocations/Laws.antt =====
-- The three loops of command/allocations/app.go against the shared loop of `Watch`.
use mathlib.Core.Path.{fun_ext}
use mathlib.Core.List.{foldl-map}
use nomad_firehose.Base.{
  ℕ, ◌≡◌, refl, sym, ◌∙◌, ap, List, [], ◌∷◌, map, foldl, gather, foldl-gather, String,
}
use nomad_firehose.Base.Int.{ℤ}
use nomad_firehose.Base.Order.{time_order}
use nomad_firehose.Command.Nomad.{TaskState, TaskEvent, Allocation}
use nomad_firehose.Command.Watch.{Response, failed, listed, Watch, Found, visit, round, run}
use nomad_firehose.Command.Watch.History.{IsHistory}
use nomad_firehose.Command.Watch.Keys.{keyed}
use nomad_firehose.Command.Allocations.{
  AllocationUpdate, payload, visit_task, visit_allocation, watch_round, watch,
}

-- Every update that an allocation could give, in the order of the loops.
abbrev pub updates_of_task : Allocation → String × TaskState → List AllocationUpdate
updates_of_task a (task_name, info) = map (payload a task_name info) info.events

abbrev pub updates_of : Allocation → List AllocationUpdate
updates_of a = gather (updates_of_task a) a.task_states

abbrev pub flatten_response : Response Allocation → Response AllocationUpdate
flatten_response failed = failed
flatten_response (listed allocations i) = listed (gather updates_of allocations) i

abbrev pub time_of : AllocationUpdate → ℤ
time_of u = u.task_event.time

-- The event that an update tells of: its allocation and task, and the event itself. The other fields are what
-- the allocation and the task are at the time of the answer.
abbrev pub Heard : Type 0
Heard = String × String × TaskEvent

abbrev pub event_of : AllocationUpdate → Heard
event_of u = (u.allocation_id, u.task_name, u.task_event)

abbrev pub time_heard : Heard → ℤ
time_heard (_, _, e) = e.time

-- The answers of a server whose new events rise.
abbrev pub EventsRise : ℤ → ℕ → List (Response Allocation) → Type 0
EventsRise last i rs =
    IsHistory time_heard last i [] (map (keyed event_of time_heard) (map flatten_response rs))

visit_task-flat :
    (last : ℤ) (a : Allocation) (st : Found ℤ AllocationUpdate) (t : String × TaskState)
    → visit_task last a st t ≡ foldl (visit time_of last) st (updates_of_task a t)
unfolding visit_task visit payload
visit_task-flat last a st (n, info) =
    sym (foldl-map (payload a n info) (visit time_of last) info.events st)

visit_allocation-flat :
    (last : ℤ) (st : Found ℤ AllocationUpdate) (a : Allocation)
    → visit_allocation last st a ≡ foldl (visit time_of last) st (updates_of a)
unfolding visit_allocation
visit_allocation-flat last st a =
    ap {B = Found ℤ AllocationUpdate} (λ f. foldl f st a.task_states)
      (fun_ext (λ s. fun_ext (λ t. visit_task-flat last a s t)))
    ∙ foldl-gather (visit time_of last) (updates_of_task a) st a.task_states

visit_all-flat :
    (last : ℤ) (st : Found ℤ AllocationUpdate) (allocations : List Allocation)
    → foldl (visit_allocation last) st allocations
      ≡ foldl (visit time_of last) st (gather updates_of allocations)
visit_all-flat last st allocations =
    ap {B = Found ℤ AllocationUpdate} (λ f. foldl f st allocations)
      (fun_ext (λ s. fun_ext (λ a. visit_allocation-flat last s a)))
    ∙ foldl-gather (visit time_of last) updates_of st allocations

-- A turn of the watcher is a turn of the plain loop over the flat list.
pub watch_round-flat :
    (w : Watch ℤ) (r : Response Allocation) → watch_round w r ≡ round time_of w (flatten_response r)
unfolding watch_round round
watch_round-flat w failed = refl
watch_round-flat w (listed allocations i) =
    rw (visit_all-flat w.last_change (record { new_max = w.new_max; handled = [] }) allocations)

-- The watcher of allocations, with its three nested loops, ends in the same state and publishes
-- the same updates as one plain loop over the updates that all events of all tasks of all
-- allocations give, whatever the answers are.
pub watch-flat :
    (w : Watch ℤ) (rs : List (Response Allocation))
    → watch w rs ≡ run time_of w (map flatten_response rs)
unfolding watch run
watch-flat w [] = refl
watch-flat w (r ∷ rs) =
    rw (watch_round-flat w r, watch-flat (round time_of w (flatten_response r)).0 rs)
