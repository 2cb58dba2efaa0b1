-- ===== src/Tests/Crashes.antt =====
-- Processes that end after one value was saved, and the next term of each firehose.
use nomad_firehose.Base.{◌≡◌, refl, false, [], ◌∷◌, none, some, arith}
use nomad_firehose.Base.Int.{ℤ, pos}
use nomad_firehose.Base.Order.{time_order}
use nomad_firehose.Helper.Manager.{restore, lead}
use nomad_firehose.Command.Persist
use nomad_firehose.Command.Allocations
use nomad_firehose.Command.EndToEnd.{firehose, Told}
use nomad_firehose.Command.Crash.{sent}
use nomad_firehose.Command.Crash.Each.{allocations_at, allocations_crash}
use nomad_firehose.Tests.Manager.{table_consul, no_values}
use nomad_firehose.Tests.Watchers.{rising_answers, rising-EventsRise}
use nomad_firehose.Tests.Whole.{marshal, at_three_firehose}

-- 3 was saved, and the watcher has come to 4.
abbrev at_four : Persist.Saver ℤ
at_four = record {
  last_change = pos 4;
  holding = none;
  channel = none;
  taken = pos 3 ∷ [];
  stopped = false;
}

at_four-Reach : Persist.Reach (pos 3) at_four
at_four-Reach =
    Persist.go_on
      (Persist.go_on
        (Persist.go_on (Persist.go_on Persist.begin (Persist.tick refl))
          (Persist.send (pos 3) refl refl))
        (Persist.take (pos 3) refl))
      (Persist.rise (pos 4) refl)

allocations_crash_example :
    let store' =
      (lead table_consul "k" no_values (sent Allocations.runner allocations_at (pos 3 ∷ []))).0 in
    (f' : Allocations.Firehose) × (Allocations.set_restore_value
        (restore table_consul store' "k")
        at_three_firehose
      ≡ some f')
    × Told marshal (pos 4) (firehose marshal f' rising_answers).1 rising_answers
allocations_crash_example =
    allocations_crash table_consul "k" no_values (pos 3) at_four [] (pos 3) at_three_firehose
      marshal rising_answers at_four-Reach refl (omega arith) refl rising-EventsRise
