-- ===== src/Helper/Process.antt =====
-- The two goroutines of the manager in helper/manager.go: `Start`, which takes the lock again and again,
-- and `signalHandler`, which closes the channels on an interrupt. A term of leadership is told by
-- `Manager`; here it begins and ends.
pub mod Laws
use nomad_firehose.Base.{ℕ, suc, ◌≡◌, ◌||◌, Bool, true, false}

-- Where `continuouslyAcquireConsulLeadership` is: in its own `select`, in `Lock`, in the loop of a term,
-- or at its end, with or without an error.
pub data Main : Type 0 where
  idle locking leading : Main
  returned : (fine : Bool) → Main

-- Where `signalHandler` is: in its `select`, before the first and the second `close` of `cleanup`, or at
-- its end.
pub data Handler : Type 0 where
  listening releasing closing finished : Handler

-- `panicked` tells that a closed channel was closed once more; `terms` counts the terms that began.
pub record Process : Type 0 where
  pub main : Main
  pub handler : Handler
  pub release_closed : Bool
  pub stop_closed : Bool
  pub panicked : Bool
  pub terms : ℕ

abbrev pub started : Process
started = record {
  main = idle;
  handler = listening;
  release_closed = false;
  stop_closed = false;
  panicked = false;
  terms = 0;
}

-- What may happen next. A new `voluntarilyReleaseLockCh` is made for each term.
pub data Step (p : Process) : Process → Type 0 where
  tick : p.main ≡ idle → Step p (record p { main = locking })
  quit : p.main ≡ idle → p.stop_closed ≡ true → Step p (record p { main = returned true })
  refused : p.main ≡ locking → Step p (record p { main = returned false })
  not_restored :
      p.main ≡ locking → Step p (record p { main = returned false; release_closed = false })
  locked :
      p.main ≡ locking
      → Step p (record p { main = leading; release_closed = false; terms = suc p.terms })
  term_failed : p.main ≡ leading → Step p (record p { main = returned false })
  term_released : p.main ≡ leading → p.release_closed ≡ true → Step p (record p { main = idle })
  term_stopped : p.main ≡ leading → p.stop_closed ≡ true → Step p (record p { main = idle })
  interrupt : p.handler ≡ listening → Step p (record p { handler = releasing })
  close_release :
      p.handler ≡ releasing
      → Step p (record p {
        handler = closing;
        release_closed = true;
        panicked = p.panicked || p.release_closed;
      })
  close_stop :
      p.handler ≡ closing
      → Step p (record p {
        handler = finished;
        stop_closed = true;
        panicked = p.panicked || p.stop_closed;
      })
  hear_stop :
      p.handler ≡ listening → p.stop_closed ≡ true → Step p (record p { handler = finished })

pub data Reach : Process → Type 0 where
  begin : Reach started
  go_on : {p q : Process} → Reach p → Step p q → Reach q

-- Steps in a row.
pub data Steps (p : Process) : Process → Type 0 where
  here : Steps p p
  then_ : {q r : Process} → Steps p q → Step q r → Steps p r
