-- ===== src/Helper/Process/Laws.antt =====
-- An invariant of the goroutines of the manager in helper/manager.go.
use nomad_firehose.Base.{ℕ, ◌≤◌, ◌≡◌, ◌≢◌, refl, Bool, true, false, arith}
use nomad_firehose.Helper.Process.{
  Main, idle, locking, leading, returned, Handler, listening, releasing, closing, finished, Process,
  Step, tick, quit, refused, not_restored, locked, term_failed, term_released, term_stopped,
  interrupt, close_release, close_stop, hear_stop, Reach, begin, go_on, Steps, here, then_,
}

-- Has `cleanup` closed `voluntarilyReleaseLockCh`?
abbrev has_released : Handler → Bool
has_released listening = false
has_released releasing = false
has_released closing = true
has_released finished = true

-- How many terms can have begun while `stopCh` is open.
abbrev early_bound : Main → ℕ
early_bound idle = 0
early_bound locking = 0
early_bound leading = 1
early_bound (returned _) = 1

abbrev late_bound : Main → Bool → ℕ
late_bound idle _ = 1
late_bound locking _ = 1
late_bound leading true = 1
late_bound leading false = 2
late_bound (returned _) _ = 2

record Invariant (p : Process) : Type 0 where
  calm : p.panicked ≡ false
  stop_last : p.stop_closed ≡ true → p.handler ≡ finished
  release_open : has_released p.handler ≡ false → p.release_closed ≡ false
  early : has_released p.handler ≡ false → p.terms ≤ early_bound p.main
  late :
      p.stop_closed ≡ false
      → has_released p.handler ≡ true
      → p.terms ≤ late_bound p.main p.release_closed

Step-Invariant : {p q : Process} → Step p q → Invariant p → Invariant q
Step-Invariant {p} (tick e) i = ground (arith, i.calm, i.stop_last, i.release_open, i.early, i.late)
Step-Invariant {p} (quit e s) i =
    ground (arith, i.calm, i.stop_last, i.release_open, i.early, i.late)
Step-Invariant {p} (refused e) i =
    ground (arith, i.calm, i.stop_last, i.release_open, i.early, i.late)
Step-Invariant {p} (not_restored e) i =
    ground (arith, i.calm, i.stop_last, i.release_open, i.early, i.late)
Step-Invariant {p} (locked e) i =
    ground (arith, i.calm, i.stop_last, i.release_open, i.early, i.late)
Step-Invariant {p} (term_failed e) i =
    ground (arith, i.calm, i.stop_last, i.release_open, i.early, i.late)
Step-Invariant {p} (term_released e r) i =
    ground (arith, i.calm, i.stop_last, i.release_open, i.early, i.late)
Step-Invariant {p} (term_stopped e s) i =
    ground (arith, i.calm, i.stop_last, i.release_open, i.early, i.late)
Step-Invariant {p} (interrupt e) i =
    ground (arith, i.calm, i.stop_last, i.release_open, i.early, i.late)
Step-Invariant {p} (close_release e) i =
    ground (arith, i.calm, i.stop_last, i.release_open, i.early, i.late)
Step-Invariant {p} (close_stop e) i =
    ground (arith, i.calm, i.stop_last, i.release_open, i.early, i.late)
Step-Invariant {p} (hear_stop e s) i =
    ground (arith, i.calm, i.stop_last, i.release_open, i.early, i.late)

Reach-Invariant : {p : Process} → Reach p → Invariant p
Reach-Invariant begin = record {
  calm = refl;
  stop_last = λ e. cc;
  release_open = λ e. refl;
  early = λ e. omega arith;
  late = λ e f. cc;
}
Reach-Invariant (go_on r s) = Step-Invariant s (Reach-Invariant r)

-- In every state that the manager's two goroutines reach, no closed channel was closed once more:
-- `cleanup` never panics.
pub closes_once : {p : Process} → Reach p → p.panicked ≡ false
closes_once r = (Reach-Invariant r).calm

-- In every state that the manager's two goroutines reach before an interrupt came, at most one
-- term of leadership has begun: a lost term ends the process.
pub uninterrupted_terms : {p : Process} → Reach p → p.handler ≡ listening → p.terms ≤ 1
uninterrupted_terms {p} r e = let i = Reach-Invariant r in ground (arith, i.early)

-- In every state that the manager's two goroutines reach while `stopCh` is open, at most two
-- terms of leadership have begun.
terms_bounded : {p : Process} → Reach p → p.stop_closed ≡ false → p.terms ≤ 2
terms_bounded {p} r e = let i = Reach-Invariant r in ground (arith, i.early, i.late)

quit_from :
    (p : Process) (m : Main)
    → p.main ≡ m
    → p.stop_closed ≡ true
    → m ≢ locking
    → (q : Process) × Steps p q × ((fine : Bool) × (q.main ≡ returned fine))
quit_from p idle e s ne = (_, then_ here (quit e s), (true, refl))
quit_from p locking e s ne = absurd (ne refl)
quit_from p leading e s ne = (_, then_ (then_ here (term_stopped e s)) (quit refl s), (true, refl))
quit_from p (returned fine) e s ne = (p, here, (fine, e))

-- When `stopCh` is closed and the manager does not wait for the lock, it has steps that end it.
interrupted_ends :
    (p : Process)
    → p.stop_closed ≡ true
    → p.main ≢ locking
    → (q : Process) × Steps p q × ((fine : Bool) × (q.main ≡ returned fine))
interrupted_ends p s ne = quit_from p p.main refl s ne
