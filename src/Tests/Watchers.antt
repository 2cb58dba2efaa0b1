-- ===== src/Tests/Watchers.antt =====
-- The watchers of command/ on a few answers of Nomad.
use mathlib.Core.List.{mem-cons_self, mem-cons_of_mem}
use nomad_firehose.Base.{
  ℕ, ◌≡◌, refl, false, some, none, not, inl, inr, List, [], ◌∷◌, map, gather, select, All, Mem,
  arith,
}
use nomad_firehose.Base.Int.{ℤ, pos, leb_ℤ}
use nomad_firehose.Base.Order.{index_order, time_order}
use nomad_firehose.Command.Nomad.{Stub, TaskEvent, TaskState, Allocation}
use nomad_firehose.Command.Watch.{Response, failed, listed, Watch, visit, round, run}
use nomad_firehose.Command.Watch.Runs.{run_rises}
use nomad_firehose.Command.Watch.History.{run_delivers, Reached, IsHistory, items_of}
use nomad_firehose.Command.Allocations
use nomad_firehose.Command.Allocations.Laws.{
  updates_of, flatten_response, EventsRise, time_of, watch-flat,
}
use nomad_firehose.Command.Allocations.Updates.{updates_exact}
use nomad_firehose.Command.Evaluations
use nomad_firehose.Command.Persist
use nomad_firehose.Command.Evaluations.Laws.{evaluations_exact, is_hit, watch_at_ends, last_indexes}

abbrev node : ℕ → Stub
node i = record { id = "node"; modify_index = i }

abbrev index_of : Stub → ℕ
index_of s = s.modify_index

abbrev at_five : Watch ℕ
at_five = record { wait_index = 5; new_max = 5; last_change = 5 }

abbrev first_answers : List (Response Stub)
first_answers = failed ∷ listed (node 3 ∷ node 6 ∷ node 7 ∷ []) 7 ∷ []

abbrev last_answers : List (Response Stub)
last_answers = listed (node 7 ∷ node 9 ∷ []) 9 ∷ []

abbrev pub answers : List (Response Stub)
answers = failed ∷ listed (node 3 ∷ node 6 ∷ node 7 ∷ []) 7 ∷ listed (node 7 ∷ node 9 ∷ []) 9 ∷ []

abbrev after_first : Watch ℕ
after_first = record { wait_index = 7; new_max = 7; last_change = 7 }

run_first : run index_of at_five first_answers ≡ (after_first, node 6 ∷ node 7 ∷ [])
unfolding run round visit
run_first = refl

run_all : (run index_of at_five answers).1 ≡ node 6 ∷ node 7 ∷ node 9 ∷ []
unfolding run round visit
run_all = refl

pub answers-IsHistory : IsHistory index_of 5 5 [] answers
answers-IsHistory = inr (
  omega arith,
  (inl (λ e. cc), (inr (refl, tt), (inr (refl, tt), tt))),
  inr (
    omega arith,
    (
      inl (λ e. mem-cons_of_mem (node 3) (mem-cons_of_mem (node 6) mem-cons_self)),
      (inr (refl, (refl, (refl, (refl, tt)))), tt),
    ),
    tt,
  ),
)

run_delivers_example :
    All (Reached index_of 5 (run index_of at_five answers).1) (gather items_of answers)
run_delivers_example = run_delivers index_of at_five answers refl answers-IsHistory

six_handled : Mem (node 6) (run index_of at_five first_answers).1
unfolding run round visit
six_handled = mem-cons_self

nine_handled : Mem (node 9) (run index_of (run index_of at_five first_answers).0 last_answers).1
unfolding run round visit
nine_handled = mem-cons_self

run_rises_example : index_order.leq 9 6 ≡ false
run_rises_example =
    run_rises index_of at_five first_answers last_answers (node 6) (node 9) refl six_handled
      nine_handled

-- An allocation with one task.
abbrev pub event : ℕ → TaskEvent
event t = record { time = pos t; others = "event" }

abbrev pub info : List TaskEvent → TaskState
info events = record {
  state = "running";
  failed = false;
  started_at = 1;
  finished_at = 0;
  events = events;
}

abbrev pub allocation : List TaskEvent → Allocation
allocation events = record {
  id = "a1";
  eval_id = "e1";
  name = "web";
  node_id = "n1";
  job_id = "j1";
  task_group = "g1";
  desired_status = "run";
  desired_description = "";
  client_status = "running";
  client_description = "";
  task_states = ("server", info events) ∷ [];
}

abbrev change : ℕ → Allocations.AllocationUpdate
change t =
    Allocations.payload (allocation (event 3 ∷ event 8 ∷ [])) "server"
      (info (event 3 ∷ event 8 ∷ [])) (event t)

abbrev allocations : List Allocation
allocations = allocation (event 3 ∷ event 8 ∷ []) ∷ []

abbrev pub at_three : Watch ℤ
at_three = record { wait_index = 1; new_max = pos 3; last_change = pos 3 }

abbrev pub allocation_answers : List (Response Allocation)
allocation_answers = listed allocations 7 ∷ []

watch-flat_example :
    Allocations.watch at_three allocation_answers
    ≡ run time_of at_three (map flatten_response allocation_answers)
watch-flat_example = watch-flat at_three allocation_answers

updates_exact_example :
    (Allocations.watch_round at_three (listed allocations 7)).1
    ≡ select (λ u. not (leb_ℤ (time_of u) (pos 3))) (gather updates_of allocations)
updates_exact_example = updates_exact at_three allocations 7 (omega arith)

-- The event at 8 is listed again when the task has another start, with a new one at 9.
abbrev restarted : TaskState
restarted = record (info (event 8 ∷ event 9 ∷ [])) { started_at = 2 }

abbrev pub rising_answers : List (Response Allocation)
rising_answers =
    listed allocations 7
    ∷ listed (record (allocation []) { task_states = ("server", restarted) ∷ [] } ∷ []) 8
    ∷ []

pub rising-EventsRise : EventsRise (pos 3) 1 rising_answers
unfolding Allocations.payload
rising-EventsRise = inr (
  omega arith,
  (inl (λ e. cc), (inr (refl, tt), tt)),
  inr (
    omega arith,
    (inl (λ e. mem-cons_of_mem _ mem-cons_self), (inr (refl, (refl, (refl, tt))), tt)),
    tt,
  ),
)

-- Evaluations: the change with index 6 comes between two last indexes.
abbrev evaluation : ℕ → Evaluations.Evaluation
evaluation i = record { id = "e1"; modify_index = i }

abbrev eval_at_five : Evaluations.EvalWatch
eval_at_five = record { wait_index = 5; last_change_index = 5 }

abbrev pub eval_answers : List (Response Evaluations.Evaluation)
eval_answers = listed (evaluation 5 ∷ evaluation 6 ∷ evaluation 7 ∷ []) 7 ∷ []

evaluations_exact_example :
    Evaluations.watch_round eval_at_five
      (listed (evaluation 5 ∷ evaluation 6 ∷ evaluation 7 ∷ []) 7)
    ≡ (
      record { wait_index = 7; last_change_index = 7 },
      select (is_hit eval_at_five) (evaluation 5 ∷ evaluation 6 ∷ evaluation 7 ∷ []),
    )
evaluations_exact_example =
    evaluations_exact eval_at_five (evaluation 5 ∷ evaluation 6 ∷ evaluation 7 ∷ []) 7 (omega arith)

five_published : Mem (evaluation 5) (Evaluations.watch eval_at_five eval_answers).1
unfolding Evaluations.watch Evaluations.watch_round
five_published = mem-cons_self

watch_at_ends_example : Mem 5 (5 ∷ last_indexes eval_answers)
watch_at_ends_example = watch_at_ends eval_at_five eval_answers (evaluation 5) five_published

-- The last change moves on while the value before waits to be sent.
abbrev pub saving : Persist.Saver ℕ
saving = record {
  last_change = 9;
  holding = some 7;
  channel = none;
  taken = 5 ∷ [];
  stopped = false;
}

pub saving-Reach : Persist.Reach 5 saving
saving-Reach =
    Persist.go_on
      (Persist.go_on
        (Persist.go_on
          (Persist.go_on
            (Persist.go_on (Persist.go_on Persist.begin (Persist.tick refl))
              (Persist.send 5 refl refl))
            (Persist.take 5 refl))
          (Persist.rise 7 refl))
        (Persist.tick refl))
      (Persist.rise 9 refl)
