-- ===== src/Tests/Processes.antt =====
-- Two processes of the nodes firehose, which lead at the same time: the first has lost the lock and goes on.
use nomad_firehose.Base.{ℕ, ◌≡◌, refl, inl, inr, [], ◌∷◌, none, some, arith, false}
use nomad_firehose.Go.Value.{to_uint64}
use nomad_firehose.Go.Strconv.{format_uint, parse_int}
use nomad_firehose.Helper.Manager.{render, restore_from, restore_parsed}
use nomad_firehose.Command.Persist
use nomad_firehose.Command.Persist.{Saver}
use nomad_firehose.Command.Nodes
use nomad_firehose.Command.Cluster.{Member, Cluster, Reach, begin, go_on, begin_term, move, save}
use nomad_firehose.Command.Cluster.Gaps.{Some, Covers}
use nomad_firehose.Command.Cluster.Laws.{no_gap_below}
use nomad_firehose.Command.Cluster.Runners.{Nodes-Numbered}

abbrev at : ℕ → Nodes.Firehose
at k = record { last_change_index = k }

-- Both have started from nothing; the first has saved 7 and gone on to 9.
abbrev first : Member
first = record {
  from = 0;
  saver = record {
    last_change = 9;
    holding = none;
    channel = none;
    taken = 7 ∷ [];
    stopped = false;
  };
}

abbrev second : Member
second = record {
  from = 0;
  saver = record { last_change = 0; holding = none; channel = none; taken = []; stopped = false };
}

abbrev both : Cluster
both = record { stored = some (b'7' ∷ []); members = first ∷ second ∷ [] }

two_begin :
    Reach Nodes.runner at
      (record { stored = none; members = record second { from = 0 } ∷ second ∷ [] })
unfolding restore_from Nodes.set_restore_value to_uint64
two_begin =
    go_on (go_on begin (begin_term none (at 4) 0 (inl refl) refl))
      (begin_term (some none) (at 0) 0 (inr refl) refl)

both-Reach : Reach Nodes.runner at both
unfolding Nodes.update render format_uint
both-Reach =
    go_on
      (go_on
        (go_on
          (go_on (go_on two_begin (move [] (second ∷ []) second refl (Persist.rise 7 refl)))
            (move [] (second ∷ []) _ refl (Persist.tick refl)))
          (move [] (second ∷ []) _ refl (Persist.send 7 refl refl)))
        (save [] (second ∷ []) _ 7 (b'7' ∷ []) refl refl refl))
      (move [] (second ∷ []) _ refl (Persist.rise 9 refl))

third_starts : Nodes.set_restore_value (restore_from (some (some (b'7' ∷ [])))) (at 0) ≡ some (at 7)
unfolding restore_from restore_parsed Nodes.set_restore_value to_uint64 parse_int
third_starts = refl

no_gap_below_example : Some (Covers 5) both.members
no_gap_below_example =
    no_gap_below Nodes.runner at Nodes-Numbered both (some (some (b'7' ∷ []))) (at 0) 7 5 both-Reach
      (omega arith, (omega arith, tt)) (inr refl) third_starts (omega arith) (omega arith)
