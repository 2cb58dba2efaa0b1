-- ===== src/Tests/Reads.antt =====
-- Reads of three nodes, of which one fails, and what a sink with two writers makes of them.
use mathlib.Core.List.Perm
use nomad_firehose.Base.{
  ℕ, ◌≡◌, refl, false, [], ◌∷◌, Option, none, some, arith, String, Perm, if◌then◌else◌, ◌==◌,
}
use nomad_firehose.Go.Value.{Bytes}
use nomad_firehose.Command.Publish
use nomad_firehose.Command.Publish.{Fetches, publish, published}
use nomad_firehose.Command.Delivery.{Done}
use nomad_firehose.Command.Watch.{round, visit, turns}
use nomad_firehose.Command.Nodes
use nomad_firehose.Sink.Queue
use nomad_firehose.Helper.Manager.{restore, lead}
use nomad_firehose.Command.Crash.{updates, crash_loses_nothing}
use nomad_firehose.Tests.Watchers.{answers, answers-IsHistory, saving-Reach}
use nomad_firehose.Tests.Manager.{table_consul, no_values}

-- A node that was read is its number; the second has no JSON.
abbrev pub marshal : ℕ → Option Bytes
marshal n = if n == 2 then none else some (n ∷ [])

abbrev pub nodes_at_five : Nodes.Firehose
nodes_at_five = record { last_change_index = 5 }

abbrev pub three_reads : Fetches String ℕ
three_reads = record {
  waiting = [];
  answered = ("node", 1) ∷ ("node", 2) ∷ [];
  refused = "node" ∷ [];
}

pub three_reads-Reach : Publish.Reach (Nodes.watch nodes_at_five answers).1 three_reads
unfolding Nodes.watch Nodes.watch_round Nodes.start_watch turns round visit
three_reads-Reach =
    Publish.go_on
      (Publish.go_on
        (Publish.go_on (Publish.start ("node" ∷ "node" ∷ "node" ∷ []) Publish.begin)
          (Publish.answer [] ("node" ∷ "node" ∷ []) "node" 1 refl))
        (Publish.answer [] ("node" ∷ []) "node" 2 refl))
      (Publish.refuse [] [] "node" refl)

-- The second writer is the first to write.
abbrev two_sent : Queue.Queue
two_sent = record { put_ch = []; held = []; attempted = (1 ∷ []) ∷ [] ∷ []; closed = false }

two_sent-Reach : Queue.Reach 2 ([] ∷ (1 ∷ []) ∷ []) two_sent
two_sent-Reach =
    Queue.go_on
      (Queue.go_on
        (Queue.go_on
          (Queue.go_on (Queue.put (1 ∷ []) (Queue.put [] Queue.begin (omega arith)) (omega arith))
            (Queue.take [] ((1 ∷ []) ∷ []) refl (omega arith)))
          (Queue.take (1 ∷ []) [] refl (omega arith)))
        (Queue.write ([] ∷ []) [] (1 ∷ []) refl))
      (Queue.write [] [] [] refl)

pub swapped : Perm ([] ∷ (1 ∷ []) ∷ []) (published marshal three_reads)
unfolding published publish
swapped = Perm.swap (1 ∷ []) [] []

-- The watcher is at 9, and 5 was saved.
crash_loses_nothing_example :
    let store' = (lead table_consul "k" no_values (updates (5 ∷ []))).0 in
    (f' : Nodes.Firehose) × (Nodes.set_restore_value (restore table_consul store' "k") nodes_at_five
      ≡ some f')
    × Done 9 (λ x. x.id) (Nodes.watch f' answers).1 answers
crash_loses_nothing_example =
    crash_loses_nothing table_consul "k" no_values 5 _ [] 5 nodes_at_five answers saving-Reach refl
      (omega arith) refl answers-IsHistory
