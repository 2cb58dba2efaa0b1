-- ===== src/Command/Allocations/Updates.antt =====
-- What the watcher of command/allocations/app.go publishes, over one turn and over many.
use nomad_firehose.Base.{
  ℕ, ◌≡◌, ◌≢◌, ap, subst, true, false, not, List, map, gather, select, All, Mem, ◌∙◌,
}
use nomad_firehose.Base.Int.{ℤ, leb_ℤ}
use nomad_firehose.Base.Order.{time_order}
use nomad_firehose.Command.Nomad.{Allocation}
use nomad_firehose.Command.Watch.{Response, listed, Watch, IsSettled}
use nomad_firehose.Command.Watch.Runs.{round_news, run_late_never}
use nomad_firehose.Command.Watch.History.{items_of}
use nomad_firehose.Command.Watch.Keys.{keys_delivered}
use nomad_firehose.Command.Allocations.{AllocationUpdate, watch_round, watch}
use nomad_firehose.Command.Allocations.Laws.{
  updates_of, flatten_response, time_of, event_of, time_heard, EventsRise, watch_round-flat,
  watch-flat,
}

-- When an answer has another `LastIndex` than the query, a turn of the watcher publishes exactly
-- the updates whose event is later than the last change, in the order of the loops over
-- allocations, tasks and events.
pub updates_exact :
    (w : Watch ℤ) (allocations : List Allocation) (i : ℕ)
    → i ≢ w.wait_index
    → (watch_round w (listed allocations i)).1
      ≡ select (λ u. not (leb_ℤ (time_of u) w.last_change)) (gather updates_of allocations)
updates_exact w allocations i ne =
    ap (λ r. r.1)
      (watch_round-flat w (listed allocations i)
        ∙ round_news time_of w (gather updates_of allocations) i ne)

-- When `newMax` and the last change agree at the start, an update whose event is not later than
-- the last change is not published by any run, whatever the answers are: an event that is listed
-- late is lost.
pub late_never :
    (w : Watch ℤ) (rs : List (Response Allocation)) (u : AllocationUpdate)
    → IsSettled w
    → leb_ℤ (time_of u) w.last_change ≡ true
    → ¬ Mem u (watch w rs).1
late_never w rs u s late m =
    run_late_never time_of w (map flatten_response rs) u s late
      (subst (λ r. Mem u r.1) (watch-flat w rs) m)

-- When `newMax` and the last change agree at the start, and each new event is later than all that
-- was listed before it and nothing new is listed while `LastIndex` stays, every listed event that
-- is later than the last change of the start is published in an update, with the state that its task had in
-- some answer.
pub watch_delivers :
    (w : Watch ℤ) (rs : List (Response Allocation))
    → IsSettled w
    → EventsRise w.last_change w.wait_index rs
    → All
        (λ u.
          leb_ℤ (time_of u) w.last_change ≡ false → Mem (event_of u) (map event_of (watch w rs).1))
        (gather items_of (map flatten_response rs))
watch_delivers w rs s h =
    rw (watch-flat w rs) (keys_delivered event_of time_heard w (map flatten_response rs) s h)
