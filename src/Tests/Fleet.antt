-- ===== src/Tests/Fleet.antt =====
-- Two processes of the nodes firehose that lead at the same time: the first has lost the lock and goes on.
use mathlib.Core.List.{mem-cons_self}
use nomad_firehose.Base.{ℕ, ◌≡◌, refl, inl, inr, [], ◌∷◌, none, some, arith, false}
use nomad_firehose.Base.Order.{index_order}
use nomad_firehose.Go.Value.{to_uint64}
use nomad_firehose.Go.Strconv.{format_uint, parse_int}
use nomad_firehose.Helper.Manager.{render, restore_from, restore_parsed}
use nomad_firehose.Command.Nomad.{Stub}
use nomad_firehose.Command.Watch.{Response, listed, round, visit}
use nomad_firehose.Command.Persist
use nomad_firehose.Command.Nodes
use nomad_firehose.Command.Cluster.Gaps.{Some}
use nomad_firehose.Command.Fleet.{
  Process, start, turn, take, Fleet, Reach, begin, more, begin_term, answered, go_on, save,
}
use nomad_firehose.Command.Fleet.Watchers.{nodes_watcher}
use nomad_firehose.Command.Fleet.Laws.{Fair, HasHandled, no_change_lost}

abbrev node : ℕ → Stub
node i = record { id = "node"; modify_index = i }

abbrev first_answer : Response Stub
first_answer = listed (node 7 ∷ []) 7

abbrev second_answer : Response Stub
second_answer = listed (node 7 ∷ node 9 ∷ []) 9

abbrev at : ℕ → Nodes.Firehose
at k = record { last_change_index = k }

-- It has saved 7 and gone on to 9.
abbrev first : Process nodes_watcher
first = record {
  from = 0;
  answers = first_answer ∷ second_answer ∷ [];
  watch = record { wait_index = 9; new_max = 9; last_change = 9 };
  effects = "node" ∷ "node" ∷ [];
  saver = record {
    last_change = 9;
    holding = none;
    channel = none;
    taken = 7 ∷ [];
    stopped = false;
  };
}

abbrev both : Fleet nodes_watcher
both = record { stored = some (b'7' ∷ []); processes = first ∷ start nodes_watcher 0 ∷ [] }

both-Reach : Reach nodes_watcher both
unfolding restore_from Nodes.set_restore_value to_uint64 Nodes.update render format_uint start turn
    take Nodes.watch_round Nodes.start_watch round visit
both-Reach =
    more
      (more
        (more
          (more
            (more
              (more (more begin (begin_term none (at 4) 0 (inl refl) refl))
                (begin_term (some none) (at 0) 0 (inr refl) refl))
              (answered [] (start nodes_watcher 0 ∷ []) _ first_answer refl))
            (go_on [] (start nodes_watcher 0 ∷ []) _ refl (Persist.tick refl) refl))
          (go_on [] (start nodes_watcher 0 ∷ []) _ refl (Persist.send 7 refl refl) refl))
        (save [] (start nodes_watcher 0 ∷ []) _ 7 (b'7' ∷ []) refl refl refl))
      (answered [] (start nodes_watcher 0 ∷ []) _ second_answer refl)

first-Fair : Fair nodes_watcher first
first-Fair = inr (
  omega arith,
  (inr (refl, tt), tt),
  inr (omega arith, (inl (λ e. mem-cons_self), (inr (refl, (refl, tt)), tt)), tt),
)

start-Fair : Fair nodes_watcher (start nodes_watcher 0)
unfolding start
start-Fair = tt

third_starts : Nodes.set_restore_value (restore_from (some (some (b'7' ∷ [])))) (at 0) ≡ some (at 7)
unfolding restore_from restore_parsed Nodes.set_restore_value to_uint64 parse_int
third_starts = refl

no_change_lost_example : Some (HasHandled nodes_watcher 5) both.processes
unfolding start
no_change_lost_example =
    no_change_lost nodes_watcher both (some (some (b'7' ∷ []))) (at 0) 7 5 both-Reach
      (omega arith, (omega arith, tt)) (first-Fair, (start-Fair, tt)) (inr refl) third_starts
      (omega arith) (omega arith)
