-- ===== src/Command/Crash.antt =====
-- A process that ends at any time, without a word: what the next one makes of the value that
-- persistLastChangeTime of command/nodes/app.go and the manager had saved by then.
pub mod Each
use mathlib.Core.List.{map-append}
use nomad_firehose.Base.{
  ℕ, ◌≡◌, ◌<◌, ◌^◌, refl, sym, subst, some, none, true, List, [], ◌∷◌, ◌++◌, map, All_mono,
  All-right, String, leb, arith, append_assoc,
}
use nomad_firehose.Base.Order.{Order, index_order}
use nomad_firehose.Go.Value.{uint64, Bytes}
use nomad_firehose.Go.Strconv.{format_uint}
use nomad_firehose.Helper.Consul.{Consul}
use nomad_firehose.Helper.Runner.{Runner}
use nomad_firehose.Helper.Manager.{Event, updated, restore, render, lead}
use nomad_firehose.Helper.Manager.Terms.{Resumes, resume}
use nomad_firehose.Command.Nomad.{Stub}
use nomad_firehose.Command.Watch.{Response}
use nomad_firehose.Command.Watch.History.{IsHistory}
use nomad_firehose.Command.Persist.{Saver, Reach}
use nomad_firehose.Command.Persist.Laws.{IsRising, saved_rises, to_list}
use nomad_firehose.Command.Delivery.{index_of, Done, nodes_deliver}
use nomad_firehose.Command.Restart.{Nodes-Resumes}
use nomad_firehose.Command.Nodes

-- What the manager takes of the firehose's channel, as it comes in on its own.
abbrev pub updates : List ℕ → List Event
updates = map (λ i. updated (uint64 i))

-- In a list that rises, an item is not above the last one.
pub IsRising-last :
    {K : Type 0} ⦃o : Order K⦄ (xs ys : List K) (a b : K)
    → IsRising (xs ++ a ∷ (ys ++ b ∷ []))
    → o.leq a b ≡ true
IsRising-last ⦃o⦄ [] ys a b h = (All-right (λ y. o.leq a y ≡ true) ys (b ∷ []) h.0).0
IsRising-last (x ∷ xs) ys a b h = IsRising-last xs ys a b h.1

-- What was taken last is not above the last change of the watcher.
pub taken_low :
    {K : Type 0} ⦃o : Order K⦄ {k : K} {s : Saver K} (before : List K) (v : K)
    → Reach k s
    → s.taken ≡ before ++ v ∷ []
    → o.leq v s.last_change ≡ true
taken_low {K} ⦃o⦄ {k} {s} before v r e =
    let rest : List K = to_list s.channel ++ to_list s.holding in
    IsRising-last (k ∷ before) rest v s.last_change (
      subst (λ l. IsRising (k ∷ l))
        (rw
          (
            e,
            append_assoc before (v ∷ []) rest,
            append_assoc before (v ∷ rest) (s.last_change ∷ []),
          )
          refl)
        (saved_rises k r))

-- What the manager takes of a runner's channel, as it comes in on its own, `at k` being the state whose
-- number is `k`.
abbrev pub sent : {K : Type 0} → (r : Runner) → (K → r.State) → List K → List Event
sent r at = map (λ k. updated (r.update (at k)))

-- A runner that sends the numbers of its states, `at k` being the state whose number is `k`.
module _ {K : Type 0} ⦃o : Order K⦄ (r : Runner) (at : K → r.State) (text : K → Bytes)
    (sends : (k : K) → render (r.update (at k)) ≡ some (text k)) where
  -- The manager writes each of them, and waits on.
  lead-sent :
      (c : Consul) (key : String) (s : c.Store) (ks : List K)
      → (lead c key s (sent r at ks)).1 ≡ none
  unfolding lead
  lead-sent c key s [] = refl
  lead-sent c key s (k ∷ ks) = rw (lead, sends k) (lead-sent c key (c.put s key (text k)).0 ks)

  -- When the process ends in any state that it reaches, and the manager has put the last value that
  -- it took into Consul without an error, then the next term restores the state of that value,
  -- which is not above the last change of the watcher.
  pub crash_restores :
      (c : Consul) (key : String) (store : c.Store) (k : K) (s : Saver K) (before : List K) (v : K)
      (st0 : r.State)
      → Reach k s
      → s.taken ≡ before ++ v ∷ []
      → (o.leq v s.last_change ≡ true → Resumes r (at v) (text v))
      → (c.put (lead c key store (sent r at before)).0 key (text v)).1 ≡ true
      → let store' = (lead c key store (sent r at (before ++ v ∷ []))).0 in
        (r.set_restore_value (restore c store' key) st0 ≡ some (at v))
        × (o.leq v s.last_change ≡ true)
  crash_restores c key store k s before v st0 reach e m written =
      let low = taken_low before v reach e in
      (
        subst (λ es. r.set_restore_value (restore c (lead c key store es).0 key) st0 ≡ some (at v))
            (sym (map-append (λ k. updated (r.update (at k))) before (v ∷ [])))
            (resume c r key store (sent r at before) [] (at v) st0 (text v) (m low)
              (lead-sent c key store before) written tt),
        low,
      )

-- When the process of the nodes firehose ends in any state that it reaches, the manager has put
-- the last value that it took into Consul without an error, the last change index is below 2^63,
-- and the answers after the restart are those of a server whose new changes rise from that value,
-- then the next term restores a firehose whose watcher starts a read for every listed node above
-- the last change index of the ended watcher.
pub crash_loses_nothing :
    (c : Consul) (key : String) (store : c.Store) (k : ℕ) (s : Saver ℕ) (before : List ℕ) (v : ℕ)
    (st0 : Nodes.Firehose) (rs : List (Response Stub))
    → Reach k s
    → s.taken ≡ before ++ v ∷ []
    → s.last_change < 2 ^ 63
    → (c.put (lead c key store (updates before)).0 key (format_uint v)).1 ≡ true
    → IsHistory index_of v v [] rs
    → let store' = (lead c key store (updates (before ++ v ∷ []))).0 in
      (f' : Nodes.Firehose) × (Nodes.set_restore_value (restore c store' key) st0 ≡ some f')
      × Done s.last_change (λ x. x.id) (Nodes.watch f' rs).1 rs
unfolding Nodes.update render
crash_loses_nothing c key store k s before v st0 rs r e small written hist =
    let (restored, low) =
      crash_restores Nodes.runner (λ i. record { last_change_index = i }) format_uint (λ i. refl) c
        key store k s before v st0 r e
        (λ low. Nodes-Resumes (record { last_change_index = v }) (ground arith)) written in
    (
      record { last_change_index = v },
      restored,
      All_mono _ _ _ (λ x d above. d (ground arith))
          (nodes_deliver (record { last_change_index = v }) rs hist),
    )
