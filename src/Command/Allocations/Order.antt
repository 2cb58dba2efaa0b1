-- ===== src/Command/Allocations/Order.antt =====
-- The order in which Go runs through the map `TaskStates` in command/allocations/app.go.
use mathlib.Core.List.Perm
use nomad_firehose.Base.{
  ℕ, ◌≡◌, refl, sym, ap, ◌∙◌, List, [], ◌∷◌, foldl, gather, Perm, String, arith, ℕ_discrete,
  if◌then◌else◌, select-perm, gather-perm, foldl-perm,
}
use nomad_firehose.Base.Int.{ℤ, leb_ℤ, eq_of_parts}
use nomad_firehose.Base.Order.{time_order}
use nomad_firehose.Command.Nomad.{TaskState, Allocation}
use nomad_firehose.Command.Watch.{listed, Watch, Found, visit, round}
use nomad_firehose.Command.Watch.Runs.{pass, round_same, round_news}
use nomad_firehose.Command.Allocations.{AllocationUpdate, payload, watch_round}
use nomad_firehose.Command.Allocations.Laws.{updates_of, updates_of_task, time_of, watch_round-flat}

-- The same allocations, the tasks of each in another order.
pub data Shuffled : List Allocation → List Allocation → Type 0 where
  nil : Shuffled [] []
  cons :
      {l k : List Allocation} (a : Allocation) (tasks : List (String × TaskState))
      → Perm a.task_states tasks
      → Shuffled l k
      → Shuffled (a ∷ l) (record a { task_states = tasks } ∷ k)

-- The tasks of an allocation have no part in the update of another.
updates-perm :
    (a : Allocation) (tasks : List (String × TaskState))
    → Perm a.task_states tasks
    → Perm (updates_of a) (updates_of (record a { task_states = tasks }))
unfolding payload
updates-perm a tasks p = gather-perm (updates_of_task a) p

gather_updates-perm :
    {l k : List Allocation} → Shuffled l k → Perm (gather updates_of l) (gather updates_of k)
gather_updates-perm nil = Perm.nil
gather_updates-perm (cons a tasks p s) =
    Perm.append (updates-perm a tasks p) (gather_updates-perm s)

-- What a step of the loop does to `newMax`.
abbrev raise : ℤ → ℤ → ℤ → ℤ
raise last m t = if leb_ℤ t last then m else if leb_ℤ t m then m else t

raise_comm : (last m s t : ℤ) → raise last (raise last m s) t ≡ raise last (raise last m t) s
raise_comm last m s t = ground (arith, eq_of_parts s t)

new_max-visit :
    (last : ℤ) (st : Found ℤ AllocationUpdate) (u : AllocationUpdate)
    → (visit time_of last st u).new_max ≡ raise last st.new_max (time_of u)
unfolding visit
new_max-visit last st u = ground arith

new_max_lem :
    (last : ℤ) (st : Found ℤ AllocationUpdate) (us : List AllocationUpdate)
    → (foldl (visit time_of last) st us).new_max
      ≡ foldl (λ m u. raise last m (time_of u)) st.new_max us
new_max_lem last st [] = refl
new_max_lem last st (u ∷ us) =
    new_max_lem last (visit time_of last st u) us
    ∙ ap (λ m. foldl (λ n v. raise last n (time_of v)) m us) (new_max-visit last st u)

ℤ_set : IsSet ℤ
ℤ_set = hlevel

pass-perm :
    (w : Watch ℤ) {us vs : List AllocationUpdate}
    → Perm us vs
    → (pass time_of w us).new_max ≡ (pass time_of w vs).new_max
pass-perm w {us} {vs} p =
    new_max_lem w.last_change _ us
    ∙ foldl-perm (λ m u. raise w.last_change m (time_of u))
        (λ m a b. raise_comm w.last_change m (time_of a) (time_of b)) ℤ_set p w.new_max
    ∙ sym (new_max_lem w.last_change _ vs)

round-perm :
    (w : Watch ℤ) (us vs : List AllocationUpdate) (i : ℕ)
    → Perm us vs
    → ((round time_of w (listed us i)).0 ≡ (round time_of w (listed vs i)).0)
      × Perm (round time_of w (listed us i)).1 (round time_of w (listed vs i)).1
round-perm w us vs i p = elim (ℕ_discrete i w.wait_index) [
  | yes e ↦ rw (round_same time_of w us i e, round_same time_of w vs i e) (refl, Perm.nil)
  | no ne ↦
      rw (round_news time_of w us i ne, round_news time_of w vs i ne)
        (
          ap {B = Watch ℤ} (λ m. record { wait_index = i; new_max = m; last_change = m })
              (pass-perm w p),
          select-perm _ p,
        )
]

-- In whatever order the tasks of each listed allocation come, as Go runs through a map in any
-- order, a turn of the watcher leaves the same state and publishes the same updates up to their
-- order.
pub task_order_irrelevant :
    (w : Watch ℤ) (l k : List Allocation) (i : ℕ)
    → Shuffled l k
    → ((watch_round w (listed l i)).0 ≡ (watch_round w (listed k i)).0)
      × Perm (watch_round w (listed l i)).1 (watch_round w (listed k i)).1
task_order_irrelevant w l k i s =
    rw (watch_round-flat w (listed l i), watch_round-flat w (listed k i))
      (round-perm w (gather updates_of l) (gather updates_of k) i (gather_updates-perm s))
