-- ===== src/Command/AnySink.antt =====
-- From the answers of Nomad to any sink that GetSink makes: the firehoses of command/allocations,
-- command/nodes, command/deployments and command/jobs over the interface of sink/structs.go.
use mathlib.Core.List.{mem-map_of_mem}
use mathlib.Core.List.Perm
use nomad_firehose.Base.{
  refl, ℕ, ◌≡◌, subst, false, List, [], ◌++◌, map, gather, All, All_mono, All_items, Mem, Perm,
  Option, String, leb,
}
use nomad_firehose.Base.Int.{ℤ, leb_ℤ}
use nomad_firehose.Base.Order.{time_order, index_order}
use nomad_firehose.Go.Value.{Bytes}
use nomad_firehose.Command.Nomad.{Allocation, Stub, JobListStub}
use nomad_firehose.Command.Watch.{Response}
use nomad_firehose.Command.Watch.History.{IsHistory, items_of}
use nomad_firehose.Command.Watch.Keys.{keyed, keys_delivered, Carried, Carried-map}
use nomad_firehose.Command.Publish
use nomad_firehose.Command.Publish.{Fetches, publish, published}
use nomad_firehose.Command.Publish.Laws.{requests_accounted}
use nomad_firehose.Command.Delivery.{
  index_of, Done, start_at, jobs_watch-run, nodes_deliver, deployments_deliver, jobs_deliver,
}
use nomad_firehose.Command.Allocations.{AllocationUpdate, Firehose}
use nomad_firehose.Command.Allocations.Laws.{flatten_response, time_of, event_of, EventsRise}
use nomad_firehose.Command.EndToEnd.{firehose, hands_over_all}
use nomad_firehose.Command.Reads.{ended}
use nomad_firehose.Command.Nodes
use nomad_firehose.Command.Deployments
use nomad_firehose.Command.Jobs
use nomad_firehose.Sink.Config.{Sink}
use nomad_firehose.Sink.Mailbox.{Bag}
use nomad_firehose.Sink.Mailbox.Laws.{Holds}
use nomad_firehose.Sink.Interface.{Reach}
use nomad_firehose.Sink.Launch.{Libraries, implementation}
use nomad_firehose.Sink.Launch.Settle.{SomeWriter, Completes, completes}

-- For every listed event later than `last`, the JSON of an update with that event is among the messages.
abbrev pub Tells : (AllocationUpdate → Option Bytes) → ℤ → Bag → List (Response Allocation) → Type 0
Tells marshal last done rs =
    All
      (λ u.
        leb_ℤ (time_of u) last ≡ false → Carried event_of (publish marshal) (λ d. Holds d done) u)
      (gather items_of (map flatten_response rs))

-- From Nomad to any sink that `GetSink` makes, one with a writer in its loop if it is of HTTP,
-- RabbitMQ, MongoDB or syslog: when the allocations firehose has published for answers that are
-- those of a server whose new events rise, then from every state of the sink in which `Put` has
-- accepted exactly these messages and `Stop` has not yet closed `stopCh`, however its goroutines
-- have moved in between, they can go on to a state in which `Stop` passes, and for every listed
-- event later than the last change the JSON of an update with that event of that task and
-- allocation was handed over. New events rise: an event that is later than the last change was
-- listed before for the same task of the same allocation, whatever the state of the two was then,
-- or it comes with a new `LastIndex` and is later than all events listed by earlier answers.
pub events_delivered :
    (l : Libraries) (sink : Sink) (marshal : AllocationUpdate → Option Bytes) (f : Firehose)
    (rs : List (Response Allocation)) (s : (implementation l sink).State)
    → EventsRise f.last_change_time 1 rs
    → SomeWriter l sink
    → Reach (implementation l sink) (firehose marshal f rs).1 s
    → (implementation l sink).stopped s ≡ false
    → Completes l sink s (λ b. Tells marshal f.last_change_time b rs)
events_delivered l sink marshal f rs s h w r o =
    completes l (λ b. Tells marshal f.last_change_time b rs) sink w r o
      (hands_over_all marshal f rs h)

-- The JSON of each resource that was read is among the messages.
abbrev pub HandsOver : {T : Type 0} → (T → Option Bytes) → Bag → Fetches String T → Type 0
HandsOver marshal done t = All (λ a. Holds (publish marshal a.1) done) t.answered

module _ {T : Type 0} (l : Libraries) (sink : Sink) (marshal : T → Option Bytes) where
  -- Once the goroutines have ended, and what they published has gone through the sink: what the watcher has
  -- done for an item, its read has ended for, and the answers are handed over.
  read_through :
      (i : ℕ) (ids : List String) (rs : List (Response Stub)) (t : Fetches String T)
      (put : List Bytes) (s : (implementation l sink).State)
      → Done i (λ x. x.id) ids rs
      → Publish.Reach ids t
      → t.waiting ≡ []
      → Perm put (published marshal t)
      → SomeWriter l sink
      → Reach (implementation l sink) put s
      → (implementation l sink).stopped s ≡ false
      → Done i (λ x. x.id) (ended t) rs × Completes l sink s (λ b. HandsOver marshal b t)
  unfolding published
  read_through i ids rs t put s d reads no_read puts w r o =
      let all_ended : Perm ids (ended t) =
        subst (λ x. Perm ids (x ++ ended t)) no_read (requests_accounted reads) in
      (
        All_mono _ _ _ (λ x p above. (Perm.mem_iff all_ended).0 (p above)) d,
        completes l (λ b. HandsOver marshal b t) sink w r o
            (All_items (λ a. Mem (publish marshal a.1) put) t.answered
              (λ a m.
                (Perm.mem_iff (Perm.symm puts)).0 (mem-map_of_mem (λ a'. publish marshal a'.1) m))),
      )

  -- For answers that are those of a server whose new changes rise: when the goroutines that the
  -- nodes watcher starts have ended, in any interleaving, and what they published was put, in any
  -- order, into a sink of any type, one with a writer in its loop if it is of HTTP, RabbitMQ,
  -- MongoDB or syslog, in which `Stop` has not yet closed `stopCh`, then the read of every listed
  -- node above the index of the start was answered or has failed, and the sink can go on to a
  -- state in which `Stop` passes and the JSON of every answer was handed over.
  pub nodes_delivered :
      (f : Nodes.Firehose) (rs : List (Response Stub)) (t : Fetches String T) (put : List Bytes)
      (s : (implementation l sink).State)
      → IsHistory index_of f.last_change_index f.last_change_index [] rs
      → Publish.Reach (Nodes.watch f rs).1 t
      → t.waiting ≡ []
      → Perm put (published marshal t)
      → SomeWriter l sink
      → Reach (implementation l sink) put s
      → (implementation l sink).stopped s ≡ false
      → Done f.last_change_index (λ x. x.id) (ended t) rs
        × Completes l sink s (λ b. HandsOver marshal b t)
  nodes_delivered f rs t put s hist =
      read_through f.last_change_index _ rs t put s (nodes_deliver f rs hist)

  -- The same for deployments.
  pub deployments_delivered :
      (f : Deployments.Firehose) (rs : List (Response Stub)) (t : Fetches String T)
      (put : List Bytes) (s : (implementation l sink).State)
      → IsHistory index_of f.last_change_time f.last_change_time [] rs
      → Publish.Reach (Deployments.watch f rs).1 t
      → t.waiting ≡ []
      → Perm put (published marshal t)
      → SomeWriter l sink
      → Reach (implementation l sink) put s
      → (implementation l sink).stopped s ≡ false
      → Done f.last_change_time (λ x. x.id) (ended t) rs
        × Completes l sink s (λ b. HandsOver marshal b t)
  deployments_delivered f rs t put s hist =
      read_through f.last_change_time _ rs t put s (deployments_deliver f rs hist)

  -- The same for jobs that are read in full.
  pub jobs_delivered :
      (f : Jobs.FirehoseBase) (rs : List (Response Stub)) (t : Fetches String T) (put : List Bytes)
      (s : (implementation l sink).State)
      → IsHistory index_of f.last_change_index f.last_change_index [] rs
      → Publish.Reach (Jobs.watch index_of Jobs.watch_job_list f rs).1 t
      → t.waiting ≡ []
      → Perm put (published marshal t)
      → SomeWriter l sink
      → Reach (implementation l sink) put s
      → (implementation l sink).stopped s ≡ false
      → Done f.last_change_index (λ x. x.id) (ended t) rs
        × Completes l sink s (λ b. HandsOver marshal b t)
  unfolding Jobs.watch_job_list
  jobs_delivered f rs t put s hist =
      read_through f.last_change_index _ rs t put s (jobs_deliver Jobs.watch_job_list f rs hist)

-- A listing without its other fields: the job and its change.
abbrev pub change_of : JobListStub → Stub
change_of x = record { id = x.id; modify_index = x.modify_index }

-- For each listed job above `last`, the JSON of a listing of it with the same index is among the messages.
abbrev pub Listed : (JobListStub → Option Bytes) → ℕ → Bag → List (Response JobListStub) → Type 0
Listed marshal last done rs =
    All
      (λ x.
        leb x.modify_index last ≡ false → Carried change_of (publish marshal) (λ d. Holds d done) x)
      (gather items_of rs)

stubs_put :
    (marshal : JobListStub → Option Bytes) (f : Jobs.FirehoseBase)
    (rs : List (Response JobListStub))
    → IsHistory index_of f.last_change_index f.last_change_index []
        (map (keyed change_of index_of) rs)
    → All
        (λ x.
          leb x.modify_index f.last_change_index ≡ false
          → Carried change_of
              (publish marshal)
              (λ d.
                Mem d (Jobs.watch (λ y. y.modify_index) (Jobs.watch_job_list_stub marshal) f rs).1)
              x)
        (gather items_of rs)
unfolding Jobs.watch_job_list_stub
stubs_put marshal f rs hist =
    rw (jobs_watch-run (λ y. y.modify_index) (Jobs.watch_job_list_stub marshal) f rs) (
      All_mono _ _ _ (λ x p above. Carried-map change_of (publish marshal) _ x (p above))
        (keys_delivered change_of index_of (start_at f.last_change_index) rs refl hist))

-- For answers that are those of a server whose new changes rise: from every state of a sink of
-- any type, one with a writer in its loop if it is of HTTP, RabbitMQ, MongoDB or syslog, that has
-- accepted what the watcher of job stubs has published and in which `Stop` has not yet closed
-- `stopCh`, the sink can go on to a state in which `Stop` passes, and for every listed job above
-- the index of the start the JSON of a listing of that job with that index was handed over. New
-- changes rise: a job with an index above the start was listed before with that index, whatever
-- the other fields were then, or it comes with a new `LastIndex` and its index is above all that
-- earlier answers listed.
pub job_stubs_delivered :
    (l : Libraries) (sink : Sink) (marshal : JobListStub → Option Bytes) (f : Jobs.FirehoseBase)
    (rs : List (Response JobListStub)) (s : (implementation l sink).State)
    → IsHistory index_of f.last_change_index f.last_change_index []
        (map (keyed change_of index_of) rs)
    → SomeWriter l sink
    → Reach
        (implementation l sink)
        (Jobs.watch (λ y. y.modify_index) (Jobs.watch_job_list_stub marshal) f rs).1
        s
    → (implementation l sink).stopped s ≡ false
    → Completes l sink s (λ b. Listed marshal f.last_change_index b rs)
job_stubs_delivered l sink marshal f rs s hist w r o =
    completes l (λ b. Listed marshal f.last_change_index b rs) sink w r o
      (stubs_put marshal f rs hist)
