-- ===== src/Tests/Whole.antt =====
-- Whole runs: a program without a sink, terms of leadership, and allocations on their way to a sink.
use mathlib.Core.List.Perm
use nomad_firehose.Base.{◌≡◌, refl, true, false, List, [], ◌∷◌, Option, some, arith, String, Perm}
use nomad_firehose.Base.Int.{pos}
use nomad_firehose.Base.Order.{time_order}
use nomad_firehose.Go.Value.{Bytes}
use nomad_firehose.Command.Nomad.{TaskState, Allocation}
use nomad_firehose.Command.Publish.{publish}
use nomad_firehose.Command.Watch.{listed}
use nomad_firehose.Command.Allocations
use nomad_firehose.Command.Allocations.Order.{nil, cons, task_order_irrelevant}
use nomad_firehose.Command.Lifecycle
use nomad_firehose.Command.Made.{new_firehose}
use nomad_firehose.Command.EndToEnd.{firehose}
use nomad_firehose.Program
use nomad_firehose.Program.Laws.{unknown_sink_fatal}
use nomad_firehose.Sink.Queue
use nomad_firehose.Sink.Config.Known.{apart}
use nomad_firehose.Tests.Watchers.{info, allocation, event, at_three, allocation_answers}
use nomad_firehose.Tests.Sinks.{services, all_are}

unknown_sink_fatal_example :
    Program.action (new_firehose true services (all_are "mongo") Lifecycle.nodes) true
    ≡ Program.fatal
unknown_sink_fatal_example =
    unknown_sink_fatal true true services (all_are "mongo") Lifecycle.nodes (
      apart "mongo" "amqp" refl,
      (
        apart "mongo" "http" refl,
        (
          apart "mongo" "kafka" refl,
          (
            apart "mongo" "kinesis" refl,
            (
              apart "mongo" "mongodb" refl,
              (
                apart "mongo" "nsq" refl,
                (
                  apart "mongo" "rabbitmq" refl,
                  (
                    apart "mongo" "redis" refl,
                    (
                      apart "mongo" "stdout" refl,
                      (
                        apart "mongo" "syslog" refl,
                        (apart "mongo" "sqs" refl, (apart "mongo" "eventbridge" refl, tt)),
                      ),
                    ),
                  ),
                ),
              ),
            ),
          ),
        ),
      ),
    )

abbrev not_started : Lifecycle.Running
not_started = record { stop_ch = Lifecycle.nil; watchers = 0; savers = 0; waiting = false }

-- Two tasks, in two orders.
abbrev web : String × TaskState
web = ("web", info (event 8 ∷ []))

abbrev log : String × TaskState
log = ("log", info (event 9 ∷ []))

abbrev two_tasks : List (String × TaskState) → Allocation
two_tasks tasks = record (allocation []) { task_states = tasks }

task_order_irrelevant_example :
    ((Allocations.watch_round at_three (listed (two_tasks (web ∷ log ∷ []) ∷ []) 7)).0
      ≡ (Allocations.watch_round at_three (listed (two_tasks (log ∷ web ∷ []) ∷ []) 7)).0)
    × Perm
        (Allocations.watch_round at_three (listed (two_tasks (web ∷ log ∷ []) ∷ []) 7)).1
        (Allocations.watch_round at_three (listed (two_tasks (log ∷ web ∷ []) ∷ []) 7)).1
task_order_irrelevant_example =
    task_order_irrelevant at_three (two_tasks (web ∷ log ∷ []) ∷ [])
      (two_tasks (log ∷ web ∷ []) ∷ []) 7
      (cons (two_tasks (web ∷ log ∷ [])) (log ∷ web ∷ []) (Perm.swap log web []) nil)

-- The name of an update stands for its JSON.
abbrev pub marshal : Allocations.AllocationUpdate → Option Bytes
marshal u = some (1 ∷ [])

abbrev pub at_three_firehose : Allocations.Firehose
at_three_firehose = record { last_change_time = pos 3 }

abbrev sent : Queue.Queue
sent = record { put_ch = []; held = []; attempted = (1 ∷ []) ∷ []; closed = false }

sent-Reach : Queue.Reach 1 (firehose marshal at_three_firehose allocation_answers).1 sent
unfolding firehose Allocations.start_watch Allocations.watch Allocations.watch_round publish
sent-Reach =
    Queue.go_on
      (Queue.go_on (Queue.put (1 ∷ []) Queue.begin (omega arith))
        (Queue.take (1 ∷ []) [] refl (omega arith)))
      (Queue.write [] [] (1 ∷ []) refl)
