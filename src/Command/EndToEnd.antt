-- ===== src/Command/EndToEnd.antt =====
-- From the answers of Nomad to the attempts of the sink, for the allocations of command/allocations/app.go,
-- and over a restart.
use mathlib.Core.List.Perm
use nomad_firehose.Base.{
  ℕ, ◌≡◌, refl, true, false, none, some, Option, List, [], ◌∷◌, ◌++◌, map, gather, All, All_mono,
  Mem, String,
}
use nomad_firehose.Base.Int.{ℤ, leb_ℤ}
use nomad_firehose.Base.Order.{time_order}
use nomad_firehose.Go.Value.{Bytes, IsInt64}
use nomad_firehose.Go.Strconv.{format_int}
use nomad_firehose.Helper.Consul.{Consul}
use nomad_firehose.Helper.Manager.{Event, updated, restore, lead}
use nomad_firehose.Helper.Manager.Terms.{Quiet, resume}
use nomad_firehose.Command.Nomad.{Allocation}
use nomad_firehose.Command.Watch.{Response}
use nomad_firehose.Command.Watch.History.{items_of}
use nomad_firehose.Command.Watch.Keys.{Carried, Carried-map, Carried-mono}
use nomad_firehose.Command.Publish.{publish}
use nomad_firehose.Command.Restart.{Allocations-Resumes}
use nomad_firehose.Command.Allocations
use nomad_firehose.Command.Allocations.{AllocationUpdate, Firehose, start_watch, watch}
use nomad_firehose.Command.Allocations.Laws.{flatten_response, time_of, event_of, EventsRise}
use nomad_firehose.Command.Allocations.Updates.{watch_delivers}
use nomad_firehose.Sink.Queue.{Queue, Reach}
use nomad_firehose.Sink.Queue.Laws.{messages_kept}
use nomad_firehose.Sink.Queue.Drain.{all_attempted}

-- The firehose after the answers, and what it has put into the sink.
unfoldable pub firehose :
    (AllocationUpdate → Option Bytes)
    → Firehose
    → List (Response Allocation)
    → Firehose × List Bytes
unfolding watch
firehose marshal f rs =
    let (w, updates) = watch (start_watch f) rs in
    (record f { last_change_time = w.last_change }, map (publish marshal) updates)

-- For every listed event later than `last`, the JSON of an update with that event of that task and allocation
-- is among the messages.
abbrev pub Told :
    (AllocationUpdate → Option Bytes) → ℤ → List Bytes → List (Response Allocation) → Type 0
Told marshal last done rs =
    All
      (λ u. leb_ℤ (time_of u) last ≡ false → Carried event_of (publish marshal) (λ d. Mem d done) u)
      (gather items_of (map flatten_response rs))

pub hands_over_all :
    (marshal : AllocationUpdate → Option Bytes) (f : Firehose) (rs : List (Response Allocation))
    → EventsRise f.last_change_time 1 rs
    → Told marshal f.last_change_time (firehose marshal f rs).1 rs
unfolding firehose start_watch
hands_over_all marshal f rs h =
    All_mono _ _ _ (λ u p late. Carried-map event_of (publish marshal) _ u (p late))
      (watch_delivers (start_watch f) rs refl h)

-- From Nomad to the sink: when the allocations firehose has published for answers that are those
-- of a server whose new events rise, and the sink, with any number of writers in any
-- interleaving, has accepted exactly these messages and has nothing left in its channel nor in a
-- writer's hands, then the JSON of every listed event later than the last change was attempted.
pub events_attempted :
    (marshal : AllocationUpdate → Option Bytes) (f : Firehose) (rs : List (Response Allocation))
    (workers : ℕ) (q : Queue)
    → EventsRise f.last_change_time 1 rs
    → Reach workers (firehose marshal f rs).1 q
    → q.put_ch ≡ []
    → q.held ≡ []
    → Told marshal f.last_change_time q.attempted rs
events_attempted marshal f rs workers q h r e k =
    All_mono _ _ _
      (λ u p late.
        Carried-mono event_of (publish marshal) _ _ u
          (λ d. (Perm.mem_iff {a = d} (all_attempted q (messages_kept r) e k)).0) (p late))
      (hands_over_all marshal f rs h)

-- When the last change time of the allocations firehose is an `int64`, the loop of a term is
-- still waiting when it takes the firehose's update, its text is put into Consul without an
-- error, and no other update follows, then the next term restores the same firehose, which hands
-- the sink the JSON of every listed event later than that time, for answers that are those of a
-- server whose new events rise.
pub allocations_restart :
    (c : Consul) (key : String) (s : c.Store) (before after : List Event)
    (marshal : AllocationUpdate → Option Bytes) (f st0 : Firehose) (rs : List (Response Allocation))
    → IsInt64 f.last_change_time
    → (lead c key s before).1 ≡ none
    → (c.put (lead c key s before).0 key (format_int f.last_change_time)).1 ≡ true
    → Quiet after
    → EventsRise f.last_change_time 1 rs
    → let s' = (lead c key s (before ++ updated (Allocations.update f) ∷ after)).0 in
      (f' : Firehose) × (Allocations.set_restore_value (restore c s' key) st0 ≡ some f')
      × Told marshal f.last_change_time (firehose marshal f' rs).1 rs
allocations_restart c key s before after marshal f st0 rs range waits written quiet h = (
  f,
  resume c Allocations.runner key s before after f st0 (format_int f.last_change_time)
      (Allocations-Resumes f range) waits written quiet,
  hands_over_all marshal f rs h,
)
