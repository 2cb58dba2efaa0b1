-- ===== src/Command/Shutdown/Laws.antt =====
-- The unlock of helper/manager.go at the end of a term, and the sinks of sink/* before it.
use nomad_firehose.Base.{◌≡◌, ◌≢◌, refl, subst, List, [], ◌∷◌, ◌++◌, some, false, sym}
use nomad_firehose.Go.Value.{Bytes}
use nomad_firehose.Command.Lifecycle.{Running, open_, closed, stop_firehose, stop_stop_ch}
use nomad_firehose.Command.Shutdown.{
  Phase, called, draining, unlocked, panicked, Ending, Step, close_channel, panic, pass, sink_panic,
  unlock, put, go_on, Steps, here, then_,
}
use nomad_firehose.Sink.Config.{Sink}
use nomad_firehose.Sink.Mailbox.{bag}
use nomad_firehose.Sink.Interface.{SinkInterface, Reach, Goes, still, further}
use nomad_firehose.Sink.Interface
use nomad_firehose.Sink.Launch.{Libraries, implementation}
use nomad_firehose.Sink.Launch.Settle.{SomeWriter, sink_completes, sink_stuck}

pub stop_open :
    (r : Running)
    → r.stop_ch ≡ open_
    → stop_firehose r ≡ some (record r { stop_ch = closed; waiting = false })
unfolding stop_firehose stop_stop_ch
stop_open r e = rw e refl

module _ (k : SinkInterface) where
  -- Steps of the sink's goroutines.
  Steps-Goes :
      {e : Ending k} (s t : k.State) (r : Running) (p : Phase)
      → Steps k e (record { running = r; sink = s; phase = p })
      → Goes k s t
      → Steps k e (record { running = r; sink = t; phase = p })
  Steps-Goes s t r p first still = first
  Steps-Goes s t r p first (further {s' = s'} g st) =
      then_ (Steps-Goes s s' r p first g) (go_on t st)

  -- The deferred function has not come to the unlock.
  abbrev Locked : Phase → Type 0
  Locked called = Unit
  Locked draining = Unit
  Locked panicked = Unit
  Locked _ = ⊥

-- When the deferred function at the end of a term begins with the channel of the firehose open,
-- and the sink, of any type, has a writer in its loop if it is one of HTTP, RabbitMQ, MongoDB or
-- syslog, then from every state that the sink reaches before its own `Stop` closes `stopCh` there
-- are steps that close the channel, bring Stop of the sink to its end and release the lock, and
-- exactly the accepted messages were handed over by then.
pub lock_released :
    (l : Libraries) (sink : Sink) {ds : List Bytes} (e : Ending (implementation l sink))
    → SomeWriter l sink
    → Reach (implementation l sink) ds e.sink
    → (implementation l sink).stopped e.sink ≡ false
    → e.phase ≡ called
    → e.running.stop_ch ≡ open_
    → (f : Ending (implementation l sink)) × Steps (implementation l sink) e f
      × (f.phase ≡ unlocked)
      × (((implementation l sink).view f.sink).finished ≡ bag ds)
lock_released l sink e w r fresh c o =
    let k : SinkInterface = implementation l sink in
    let (s, t, g, passed, all) = sink_completes l sink w r fresh in
    let first = then_ here (close_channel _ c (stop_open e.running o)) in
    let drained = Steps-Goes k e.sink s _ draining first g in
    (_, then_ (then_ drained (pass t refl passed)) (unlock refl), refl, all)

-- A message was accepted, and the deferred function has not come to the unlock.
record Held (l : Libraries) (sink : Sink) (e : Ending (implementation l sink)) : Type 0 where
  first : Bytes
  rest : List Bytes
  reached : Reach (implementation l sink) (first ∷ rest) e.sink
  locked : Locked (implementation l sink) e.phase

module _ (l : Libraries) (sink : Sink) (none_there : ¬ SomeWriter l sink) where
  abbrev K : SinkInterface
  K = implementation l sink

  Step-Held : {e f : Ending K} → Step K e f → Held l sink e → Held l sink f
  Step-Held (close_channel r c s) h = record {
    first = h.first;
    rest = h.rest;
    reached = h.reached;
    locked = tt;
  }
  Step-Held (panic c s) h = record {
    first = h.first;
    rest = h.rest;
    reached = h.reached;
    locked = tt;
  }
  Step-Held (pass s p passed) h =
      let stuck = (sink_stuck l sink none_there h.reached).0 in cc (stuck, passed)
  Step-Held (sink_panic p panicked_there) h = record {
    first = h.first;
    rest = h.rest;
    reached = h.reached;
    locked = tt;
  }
  Step-Held (unlock p) h = absurd (subst (Locked K) p h.locked)
  Step-Held (put d s p) h = record {
    first = h.first;
    rest = h.rest ++ d ∷ [];
    reached = Interface.put d h.reached p;
    locked = h.locked;
  }
  Step-Held (go_on s st) h = record {
    first = h.first;
    rest = h.rest;
    reached = Interface.go_on h.reached st;
    locked = h.locked;
  }

  Steps-Held : {e f : Ending K} → Steps K e f → Held l sink e → Held l sink f
  Steps-Held here h = h
  Steps-Held (then_ s st) h = Step-Held st (Steps-Held s h)

  not_unlocked : (p : Phase) → Locked K p → p ≢ unlocked
  not_unlocked p h e = subst (Locked K) e h

-- When no writer of the sink comes to its loop, and a message was accepted before the deferred
-- function at the end of a term begins, then no steps of it, of the sink and of the watcher, in
-- any interleaving, bring it to the release of the lock.
pub lock_kept :
    (l : Libraries) (sink : Sink) {d : Bytes} {ds : List Bytes}
    (e f : Ending (implementation l sink))
    → ¬ SomeWriter l sink
    → Reach (implementation l sink) (d ∷ ds) e.sink
    → e.phase ≡ called
    → Steps (implementation l sink) e f
    → f.phase ≢ unlocked
lock_kept l sink {d} {ds} e f none_there r c steps =
    let k : SinkInterface = implementation l sink in
    let h : Held l sink e = record {
      first = d;
      rest = ds;
      reached = r;
      locked = subst (Locked k) (sym c) tt;
    } in
    not_unlocked l sink none_there f.phase (Steps-Held l sink none_there steps h).locked
