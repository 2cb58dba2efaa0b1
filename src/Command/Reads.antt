-- ===== src/Command/Reads.antt =====
-- From the answers of Nomad to the attempts of the sink, for the firehoses of command/nodes,
-- command/deployments and command/jobs: the first two and `jobs` read each resource in a goroutine of its
-- own, `jobliststubs` publishes the item of the list.
use mathlib.Core.List.{mem-map_of_mem}
use mathlib.Core.List.Perm
use nomad_firehose.Base.{
  ℕ, ◌≡◌, subst, List, [], ◌++◌, map, All, All_mono, All_items, Mem, Perm, Option, String,
}
use nomad_firehose.Base.Order.{index_order}
use nomad_firehose.Go.Value.{Bytes}
use nomad_firehose.Command.Nomad.{Stub}
use nomad_firehose.Command.Watch.{Response}
use nomad_firehose.Command.Watch.History.{IsHistory}
use nomad_firehose.Command.Publish
use nomad_firehose.Command.Publish.{Fetches, publish, published}
use nomad_firehose.Command.Publish.Laws.{requests_accounted}
use nomad_firehose.Command.Delivery.{
  index_of, Done, nodes_deliver, deployments_deliver, jobs_deliver,
}
use nomad_firehose.Command.Nodes
use nomad_firehose.Command.Deployments
use nomad_firehose.Command.Jobs
use nomad_firehose.Sink.Queue.{Queue, Reach}
use nomad_firehose.Sink.Queue.Laws.{messages_kept}
use nomad_firehose.Sink.Queue.Drain.{all_attempted}

-- The ids whose read has ended.
abbrev pub ended : {T : Type 0} → Fetches String T → List String
ended t = map (λ a. a.0) t.answered ++ t.refused

-- The JSON of each resource that was read is among the messages.
abbrev pub Sent : {T : Type 0} → (T → Option Bytes) → List Bytes → Fetches String T → Type 0
Sent marshal done t = All (λ a. Mem (publish marshal a.1) done) t.answered

module _ {T : Type 0} (marshal : T → Option Bytes) where
  -- Once the goroutines have ended, and what they published has gone through the sink: what the watcher has
  -- done for an item, its read has ended for, and the answers are sent.
  through :
      (i : ℕ) (ids : List String) (rs : List (Response Stub)) (t : Fetches String T)
      (put : List Bytes) (workers : ℕ) (q : Queue)
      → Done i (λ x. x.id) ids rs
      → Publish.Reach ids t
      → t.waiting ≡ []
      → Perm put (published marshal t)
      → Reach workers put q
      → q.put_ch ≡ []
      → q.held ≡ []
      → Done i (λ x. x.id) (ended t) rs × Sent marshal q.attempted t
  unfolding published
  through i ids rs t put workers q d reads no_read puts r e k =
      let all_ended : Perm ids (ended t) =
        subst (λ w. Perm ids (w ++ ended t)) no_read (requests_accounted reads) in
      let sent = Perm.trans (Perm.symm puts) (all_attempted q (messages_kept r) e k) in
      (
        All_mono _ _ _ (λ x p above. (Perm.mem_iff all_ended).0 (p above)) d,
        All_items (λ a. Mem (publish marshal a.1) q.attempted) t.answered
            (λ a m. (Perm.mem_iff sent).0 (mem-map_of_mem (λ a'. publish marshal a'.1) m)),
      )

  -- For answers that are those of a server whose new changes rise: when the goroutines that the
  -- nodes watcher starts have ended, in any interleaving, and what they published, in any order,
  -- has gone through a sink with any number of writers, then the read of every listed node above
  -- the index of the start was answered or has failed, and the JSON of every answer was
  -- attempted.
  pub nodes_attempted :
      (f : Nodes.Firehose) (rs : List (Response Stub)) (t : Fetches String T) (put : List Bytes)
      (workers : ℕ) (q : Queue)
      → IsHistory index_of f.last_change_index f.last_change_index [] rs
      → Publish.Reach (Nodes.watch f rs).1 t
      → t.waiting ≡ []
      → Perm put (published marshal t)
      → Reach workers put q
      → q.put_ch ≡ []
      → q.held ≡ []
      → Done f.last_change_index (λ x. x.id) (ended t) rs × Sent marshal q.attempted t
  nodes_attempted f rs t put workers q hist =
      through f.last_change_index _ rs t put workers q (nodes_deliver f rs hist)

  -- The same for deployments.
  deployments_attempted :
      (f : Deployments.Firehose) (rs : List (Response Stub)) (t : Fetches String T)
      (put : List Bytes) (workers : ℕ) (q : Queue)
      → IsHistory index_of f.last_change_time f.last_change_time [] rs
      → Publish.Reach (Deployments.watch f rs).1 t
      → t.waiting ≡ []
      → Perm put (published marshal t)
      → Reach workers put q
      → q.put_ch ≡ []
      → q.held ≡ []
      → Done f.last_change_time (λ x. x.id) (ended t) rs × Sent marshal q.attempted t
  deployments_attempted f rs t put workers q hist =
      through f.last_change_time _ rs t put workers q (deployments_deliver f rs hist)

  -- The same for jobs that are read in full.
  jobs_attempted :
      (f : Jobs.FirehoseBase) (rs : List (Response Stub)) (t : Fetches String T) (put : List Bytes)
      (workers : ℕ) (q : Queue)
      → IsHistory index_of f.last_change_index f.last_change_index [] rs
      → Publish.Reach (Jobs.watch index_of Jobs.watch_job_list f rs).1 t
      → t.waiting ≡ []
      → Perm put (published marshal t)
      → Reach workers put q
      → q.put_ch ≡ []
      → q.held ≡ []
      → Done f.last_change_index (λ x. x.id) (ended t) rs × Sent marshal q.attempted t
  unfolding Jobs.watch_job_list
  jobs_attempted f rs t put workers q hist =
      through f.last_change_index _ rs t put workers q (jobs_deliver Jobs.watch_job_list f rs hist)
