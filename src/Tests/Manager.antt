-- ===== src/Tests/Manager.antt =====
-- The manager with a small store in place of Consul, and the numbers that it writes.
use text.Mathlib.Text.{◌==◌ as str_eq}
use text.Mathlib.TextEquality.{eq_iff}
use nomad_firehose.Base.{
  is_some, false, List, ℕ, ◌≡◌, ◌≢◌, ◌⊎◌, ◌^◌, refl, ap, sym, Bool, false, true, inl, inr,
  Bool-cases, List, [], ◌∷◌, ◌++◌, Option, none, some, arith, String, if◌then◌else◌,
}
use nomad_firehose.Go.Value.{uint64, Bytes}
use nomad_firehose.Go.Strconv.{format_uint}
use nomad_firehose.Helper.Consul.{Consul}
use nomad_firehose.Helper.Manager.{
  Event, updated, stopped, lock_noted, Exit, clean, LockAnswers, led, no_options, no_lock, locked,
  runner_started, runner_stopped, unlocked, restore, lead, acquire, render, value_key,
}
use nomad_firehose.Helper.Manager.Keys.{firehoses_apart}
use nomad_firehose.Helper.Manager.Terms.{resume, acquire_balanced}
use nomad_firehose.Command.Restart.{Nodes-Resumes, Nodes_overflow, runners_fit}
use nomad_firehose.Helper.Process
use nomad_firehose.Helper.Process.Laws.{closes_once}
use nomad_firehose.Command.Terms.{early_terms_close}
use nomad_firehose.Command.Lifecycle
use nomad_firehose.Command.Lifecycle.{jobs_two_stops}
use nomad_firehose.Command.Nodes

abbrev pub Table : Type 0
Table = String → Option Bytes

abbrev pub put_in : Table → String → Bytes → Table × Bool
put_in s key value = (λ k. if str_eq k key then some value else s k, true)

pub put_in_self :
    (s : Table) (key : String) (value : Bytes) → (put_in s key value).0 key ≡ some value
put_in_self s key value = rw ((eq_iff key key).1 refl)

pub put_in_other :
    (s : Table) (key other : String) (value : Bytes)
    → key ≢ other
    → (put_in s key value).0 other ≡ s other
put_in_other s key other value ne = elim (Bool-cases (str_eq other key)) [
  | inl e ↦ absurd (ne (sym ((eq_iff other key).0 e)))
  | inr d ↦ rw d
]

abbrev pub table_consul : Consul
table_consul = record {
  Store = Table;
  get = λ s k. some (s k);
  put = put_in;
  get-put = λ s key value e. ap some (put_in_self s key value);
  get-put_other = λ s key other value ne. ap some (put_in_other s key other value ne);
}

abbrev pub no_values : Table
no_values = λ k. none

abbrev nodes_at : ℕ → Nodes.Firehose
nodes_at i = record { last_change_index = i }

abbrev pub early : List Event
early = updated (uint64 7) ∷ lock_noted ∷ []

pub early_waits : (lead table_consul "k" no_values early).1 ≡ none
unfolding lead render
early_waits = refl

resume_example :
    Nodes.set_restore_value
      (restore table_consul
        (lead table_consul "k" no_values
          (early ++ updated (Nodes.update (nodes_at 42)) ∷ lock_noted ∷ stopped ∷ [])).0
        "k")
      (nodes_at 0)
    ≡ some (nodes_at 42)
resume_example =
    resume table_consul Nodes.runner "k" no_values early (lock_noted ∷ stopped ∷ []) (nodes_at 42)
      (nodes_at 0) (format_uint 42) (Nodes-Resumes (nodes_at 42) (omega arith)) early_waits refl
      (refl, (refl, tt))

abbrev from_nodes : List Event
from_nodes = updated (Nodes.update (nodes_at 7)) ∷ lock_noted ∷ stopped ∷ []

abbrev granted : LockAnswers
granted = record { options_ok = true; lock_ok = true }

term_returns :
    (acquire table_consul Nodes.runner "p" granted no_values (nodes_at 0) from_nodes).result
    ≡ some (led clean)
unfolding acquire lead restore Nodes.set_restore_value Nodes.update render value_key
term_returns = refl

acquire_balanced_example :
    let t = acquire table_consul Nodes.runner "p" granted no_values (nodes_at 0) from_nodes in
    ((t.actions ≡ []) × ((led clean ≡ no_options) ⊎ (led clean ≡ no_lock)))
    ⊎ ((t.actions ≡ locked ∷ runner_started ∷ runner_stopped ∷ unlocked ∷ [])
        × ((x : Exit) × (led clean ≡ led x)))
acquire_balanced_example =
    acquire_balanced table_consul Nodes.runner "p" granted no_values (nodes_at 0) from_nodes
      (led clean) runners_fit.1 term_returns

Nodes_overflow_example :
    Nodes.set_restore_value
      (restore table_consul
        (lead table_consul "k" no_values (updated (Nodes.update (nodes_at (2 ^ 63))) ∷ [])).0
        "k")
      (nodes_at 3)
    ≡ some (nodes_at 0)
Nodes_overflow_example =
    Nodes_overflow table_consul "k" no_values (nodes_at (2 ^ 63)) (nodes_at 3) (omega arith)
      (omega arith) refl

-- A term that an interrupt ends.
abbrev in_term : Process.Process
in_term = record Process.started { main = Process.leading; terms = 1 }

in_term-Reach : Process.Reach in_term
in_term-Reach =
    Process.go_on (Process.go_on Process.begin (Process.tick refl)) (Process.locked refl)

closes_once_example : in_term.panicked ≡ false
closes_once_example = closes_once in_term-Reach

-- `Stop` of a term, with its `Start` after it.
abbrev start_late : List Lifecycle.Call
start_late = Lifecycle.stop ∷ Lifecycle.start ∷ []

early_terms_close_example :
    is_some (
      Lifecycle.calls Lifecycle.deployments
        (Lifecycle.new_stop_ch Lifecycle.deployments)
        start_late)
    ≡ false
early_terms_close_example =
    early_terms_close Lifecycle.deployments start_late in_term-Reach refl (omega arith)

jobs_two_stops_example :
    Lifecycle.calls Lifecycle.jobs
      (Lifecycle.new_stop_ch Lifecycle.jobs)
      (Lifecycle.stop ∷ Lifecycle.start ∷ Lifecycle.start ∷ Lifecycle.stop ∷ [])
    ≡ none
jobs_two_stops_example =
    jobs_two_stops (Lifecycle.new_stop_ch Lifecycle.jobs)
      (Lifecycle.stop ∷ Lifecycle.start ∷ Lifecycle.start ∷ Lifecycle.stop ∷ []) (omega arith)

firehoses_apart_example :
    table_consul.get
      (lead table_consul (value_key "p" "nodes") no_values early).0
      (value_key "p" "jobs")
    ≡ some none
firehoses_apart_example = firehoses_apart table_consul "p" "nodes" "jobs" no_values early (λ e. cc)
