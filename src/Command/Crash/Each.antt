-- ===== src/Command/Crash/Each.antt =====
-- The same for command/allocations, command/deployments and command/jobs: what the next
-- process makes of the value that was saved when the last one ended.
use nomad_firehose.Base.{
  ℕ, ◌≡◌, ◌<◌, ◌^◌, refl, some, true, false, List, [], ◌∷◌, ◌++◌, All_mono, Option, String, leb,
  arith,
}
use nomad_firehose.Base.Int.{ℤ, leb_ℤ}
use nomad_firehose.Base.Order.{index_order, time_order}
use nomad_firehose.Go.Value.{Bytes, IsInt64}
use nomad_firehose.Go.Strconv.{format_uint, format_int}
use nomad_firehose.Helper.Consul.{Consul}
use nomad_firehose.Helper.Manager.{restore, render, lead}
use nomad_firehose.Command.Nomad.{Stub, Allocation}
use nomad_firehose.Command.Watch.{Response}
use nomad_firehose.Command.Watch.History.{IsHistory}
use nomad_firehose.Command.Persist.{Saver, Reach}
use nomad_firehose.Command.Delivery.{index_of, Done, deployments_deliver, jobs_deliver}
use nomad_firehose.Command.Restart.{Allocations-Resumes, Deployments-Resumes, Jobs-Resumes}
use nomad_firehose.Command.Crash.{crash_restores, sent}
use nomad_firehose.Command.Allocations
use nomad_firehose.Command.Allocations.Laws.{time_of, EventsRise}
use nomad_firehose.Command.EndToEnd.{firehose, Told, hands_over_all}
use nomad_firehose.Command.Deployments
use nomad_firehose.Command.Jobs

abbrev pub allocations_at : ℤ → Allocations.Firehose
allocations_at t = record { last_change_time = t }

allocations_sends :
    (t : ℤ) → render (Allocations.runner.update (allocations_at t)) ≡ some (format_int t)
unfolding Allocations.update render
allocations_sends t = refl

-- An update that is late for the ended watcher is late for the restored one.
late_still : (t v last : ℤ) → leb_ℤ v last ≡ true → leb_ℤ t last ≡ false → leb_ℤ t v ≡ false
late_still t v last low late = ground arith

-- When the process of the allocations firehose ends in any state that it reaches, the manager has
-- put the last value that it took, an `int64`, into Consul without an error, and the answers
-- after the restart are those of a server whose new events rise from that value, then the next
-- term restores a firehose that, for every listed event later than the last change time of the
-- ended watcher, hands the sink the JSON of an update with that event of that task and
-- allocation. New events rise: an event that is later than the value was listed before for the
-- same task of the same allocation, whatever the state of the two was then, or it comes with a
-- new `LastIndex` and is later than all events listed by earlier answers.
pub allocations_crash :
    (c : Consul) (key : String) (store : c.Store) (k : ℤ) (s : Saver ℤ) (before : List ℤ) (v : ℤ)
    (st0 : Allocations.Firehose) (marshal : Allocations.AllocationUpdate → Option Bytes)
    (rs : List (Response Allocation))
    → Reach k s
    → s.taken ≡ before ++ v ∷ []
    → IsInt64 v
    → (c.put
        (lead c key store (sent Allocations.runner allocations_at before)).0
        key
        (format_int v)).1
      ≡ true
    → EventsRise v 1 rs
    → let store' =
        (lead c key store (sent Allocations.runner allocations_at (before ++ v ∷ []))).0 in
      (f' : Allocations.Firehose) × (Allocations.set_restore_value (restore c store' key) st0
        ≡ some f')
      × Told marshal s.last_change (firehose marshal f' rs).1 rs
allocations_crash c key store k s before v st0 marshal rs r e range written hist =
    let (restored, low) =
      crash_restores Allocations.runner allocations_at format_int allocations_sends c key store k s
        before v st0 r e (λ low. Allocations-Resumes (allocations_at v) range) written in
    (
      allocations_at v,
      restored,
      All_mono _ _ _ (λ u told late. told (late_still (time_of u) v s.last_change low late))
          (hands_over_all marshal (allocations_at v) rs hist),
    )

abbrev pub deployments_at : ℕ → Deployments.Firehose
deployments_at i = record { last_change_time = i }

deployments_sends :
    (i : ℕ) → render (Deployments.runner.update (deployments_at i)) ≡ some (format_uint i)
unfolding Deployments.update render
deployments_sends i = refl

below : (v last bound : ℕ) → leb v last ≡ true → last < bound → v < bound
below v last bound low small = ground arith

-- The same as for nodes: with the last value put into Consul without an error, and the last change below
-- 2^63, the next term starts a read for every listed deployment above the last change of the ended watcher,
-- for answers that are those of a server whose new changes rise from the saved value.
pub deployments_crash :
    (c : Consul) (key : String) (store : c.Store) (k : ℕ) (s : Saver ℕ) (before : List ℕ) (v : ℕ)
    (st0 : Deployments.Firehose) (rs : List (Response Stub))
    → Reach k s
    → s.taken ≡ before ++ v ∷ []
    → s.last_change < 2 ^ 63
    → (c.put
        (lead c key store (sent Deployments.runner deployments_at before)).0
        key
        (format_uint v)).1
      ≡ true
    → IsHistory index_of v v [] rs
    → let store' =
        (lead c key store (sent Deployments.runner deployments_at (before ++ v ∷ []))).0 in
      (f' : Deployments.Firehose) × (Deployments.set_restore_value (restore c store' key) st0
        ≡ some f')
      × Done s.last_change (λ x. x.id) (Deployments.watch f' rs).1 rs
deployments_crash c key store k s before v st0 rs r e small written hist =
    let (restored, low) =
      crash_restores Deployments.runner deployments_at format_uint deployments_sends c key store k s
        before v st0 r e
        (λ low. Deployments-Resumes (deployments_at v) (below v s.last_change (2 ^ 63) low small))
        written in
    (
      deployments_at v,
      restored,
      All_mono _ _ _ (λ x d above. d (ground arith))
          (deployments_deliver (deployments_at v) rs hist),
    )

abbrev pub jobs_at : ℕ → Jobs.FirehoseBase
jobs_at i = record { last_change_index = i }

jobs_sends : (i : ℕ) → render (Jobs.job_runner.update (jobs_at i)) ≡ some (format_uint i)
unfolding Jobs.update render
jobs_sends i = refl

-- When the process of a jobs firehose, with any callback, ends in any state that it reaches, the
-- manager has put the last value that it took into Consul without an error, the last change index
-- is below 2^63, and the answers after the restart are those of a server whose new changes rise
-- from that value, then the next term restores a firehose whose watcher calls the callback on
-- every listed job above the last change index of the ended watcher.
pub jobs_crash :
    {E : Type 0} (callback : Stub → E) (c : Consul) (key : String) (store : c.Store) (k : ℕ)
    (s : Saver ℕ) (before : List ℕ) (v : ℕ) (st0 : Jobs.FirehoseBase) (rs : List (Response Stub))
    → Reach k s
    → s.taken ≡ before ++ v ∷ []
    → s.last_change < 2 ^ 63
    → (c.put (lead c key store (sent Jobs.job_runner jobs_at before)).0 key (format_uint v)).1
      ≡ true
    → IsHistory index_of v v [] rs
    → let store' = (lead c key store (sent Jobs.job_runner jobs_at (before ++ v ∷ []))).0 in
      (f' : Jobs.FirehoseBase) × (Jobs.set_restore_value (restore c store' key) st0 ≡ some f')
      × Done s.last_change callback (Jobs.watch index_of callback f' rs).1 rs
jobs_crash callback c key store k s before v st0 rs r e small written hist =
    let (restored, low) =
      crash_restores Jobs.job_runner jobs_at format_uint jobs_sends c key store k s before v st0 r e
        (λ low. Jobs-Resumes (jobs_at v) (below v s.last_change (2 ^ 63) low small)) written in
    (
      jobs_at v,
      restored,
      All_mono _ _ _ (λ x d above. d (ground arith)) (jobs_deliver callback (jobs_at v) rs hist),
    )
