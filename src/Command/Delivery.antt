-- ===== src/Command/Delivery.antt =====
-- What the firehoses of nodes, deployments and jobs do with the items that their watchers handle, within
-- a term of leadership and over the restart from one to the next.
use mathlib.Core.List.{mem-map_of_mem}
use nomad_firehose.Base.{
  ℕ, ◌≡◌, ◌<◌, ◌^◌, refl, ap, none, some, true, false, List, [], ◌∷◌, ◌++◌, map, gather, All,
  All_mono, Mem, String, leb,
}
use nomad_firehose.Base.Order.{index_order}
use nomad_firehose.Go.Strconv.{format_uint}
use nomad_firehose.Helper.Consul.{Consul}
use nomad_firehose.Helper.Manager.{Event, updated, restore, lead}
use nomad_firehose.Helper.Manager.Terms.{Quiet, resume}
use nomad_firehose.Command.Nomad.{Stub}
use nomad_firehose.Command.Watch.{Response, Watch, run}
use nomad_firehose.Command.Watch.Runs.{turns-run}
use nomad_firehose.Command.Watch.History.{IsHistory, items_of, run_delivers}
use nomad_firehose.Command.Nodes
use nomad_firehose.Command.Deployments
use nomad_firehose.Command.Jobs
use nomad_firehose.Command.Restart.{Nodes-Resumes}

abbrev pub index_of : Stub → ℕ
index_of s = s.modify_index

-- The marks at the start of a watcher.
abbrev pub start_at : ℕ → Watch ℕ
start_at i = record { wait_index = i; new_max = i; last_change = i }

-- What is done for each listed item above the index `i` is among the things done.
abbrev pub Done {ℓ} : {E : Type ℓ} → ℕ → (Stub → E) → List E → List (Response Stub) → Type ℓ
Done i h done rs = All (λ x. leb (index_of x) i ≡ false → Mem (h x) done) (gather items_of rs)

pub run-Done :
    {E : Type 0} (i : ℕ) (h : Stub → E) (rs : List (Response Stub))
    → IsHistory index_of i i [] rs
    → Done i h (map h (run index_of (start_at i) rs).1) rs
run-Done i h rs hist =
    All_mono _ _ (gather items_of rs) (λ x f above. mem-map_of_mem h (f above))
      (run_delivers index_of (start_at i) rs refl hist)

nodes_watch-run :
    (f : Nodes.Firehose) (rs : List (Response Stub))
    → (Nodes.watch f rs).1 ≡ map (λ x. x.id) (run index_of (start_at f.last_change_index) rs).1
unfolding Nodes.watch Nodes.watch_round Nodes.start_watch
nodes_watch-run f rs =
    ap (λ r. r.1)
      (turns-run index_of (λ x. x.id) Nodes.watch_round (λ w r. refl) (start_at f.last_change_index)
        rs)

deployments_watch-run :
    (f : Deployments.Firehose) (rs : List (Response Stub))
    → (Deployments.watch f rs).1 ≡ map (λ x. x.id) (run index_of (start_at f.last_change_time) rs).1
unfolding Deployments.watch Deployments.watch_round Deployments.start_watch
deployments_watch-run f rs =
    ap (λ r. r.1)
      (turns-run index_of (λ x. x.id) Deployments.watch_round (λ w r. refl)
        (start_at f.last_change_time) rs)

pub jobs_watch-run :
    {A E : Type 0} (index : A → ℕ) (callback : A → E) (f : Jobs.FirehoseBase)
    (rs : List (Response A))
    → (Jobs.watch index callback f rs).1
      ≡ map callback (run index (start_at f.last_change_index) rs).1
unfolding Jobs.watch Jobs.watch_round Jobs.start_watch
jobs_watch-run index callback f rs =
    ap (λ r. r.1)
      (turns-run index callback (Jobs.watch_round index callback) (λ w r. refl)
        (start_at f.last_change_index) rs)

-- A read is started for every listed node above the index of the start.
pub nodes_deliver :
    (f : Nodes.Firehose) (rs : List (Response Stub))
    → IsHistory index_of f.last_change_index f.last_change_index [] rs
    → Done f.last_change_index (λ x. x.id) (Nodes.watch f rs).1 rs
nodes_deliver f rs h = rw (nodes_watch-run f rs) (run-Done f.last_change_index (λ x. x.id) rs h)

-- When the answers are those of a server that lists nothing new while `LastIndex` stays and gives
-- each new change a higher index than all that it listed before, the deployments watcher starts a
-- read for every listed deployment above the index of the start.
pub deployments_deliver :
    (f : Deployments.Firehose) (rs : List (Response Stub))
    → IsHistory index_of f.last_change_time f.last_change_time [] rs
    → Done f.last_change_time (λ x. x.id) (Deployments.watch f rs).1 rs
deployments_deliver f rs h =
    rw (deployments_watch-run f rs) (run-Done f.last_change_time (λ x. x.id) rs h)

-- When the answers are those of a server that lists nothing new while `LastIndex` stays and gives
-- each new change a higher index than all that it listed before, the jobs watcher calls its
-- callback on every listed job above the index of the start.
pub jobs_deliver :
    {E : Type 0} (callback : Stub → E) (f : Jobs.FirehoseBase) (rs : List (Response Stub))
    → IsHistory index_of f.last_change_index f.last_change_index [] rs
    → Done f.last_change_index callback (Jobs.watch index_of callback f rs).1 rs
jobs_deliver callback f rs h =
    rw (jobs_watch-run index_of callback f rs) (run-Done f.last_change_index callback rs h)

-- When the last change index of the nodes firehose is below 2^63, the loop of a term is still
-- waiting when it takes the firehose's update, its text is put into Consul without an error, and
-- no other update follows, then the next term restores a firehose whose watcher starts a read for
-- every listed node above that index, for any answers that are those of a server whose new
-- changes rise: no change is lost over the restart.
pub nodes_restart :
    (c : Consul) (key : String) (s : c.Store) (before after : List Event) (f st0 : Nodes.Firehose)
    (rs : List (Response Stub))
    → f.last_change_index < 2 ^ 63
    → (lead c key s before).1 ≡ none
    → (c.put (lead c key s before).0 key (format_uint f.last_change_index)).1 ≡ true
    → Quiet after
    → IsHistory index_of f.last_change_index f.last_change_index [] rs
    → let s' = (lead c key s (before ++ updated (Nodes.update f) ∷ after)).0 in
      (f' : Nodes.Firehose) × (Nodes.set_restore_value (restore c s' key) st0 ≡ some f')
      × Done f.last_change_index (λ x. x.id) (Nodes.watch f' rs).1 rs
nodes_restart c key s before after f st0 rs small waits written quiet h = (
  f,
  resume c Nodes.runner key s before after f st0 (format_uint f.last_change_index)
      (Nodes-Resumes f small) waits written quiet,
  nodes_deliver f rs h,
)
