-- ===== src/Command/Shutdown.antt =====
-- The deferred function of acquireConsulLeadership in helper/manager.go with what it calls: Stop of a
-- firehose under command/, which closes its channel and then calls Stop of its sink, and the unlock.
pub mod Laws
use nomad_firehose.Base.{◌≡◌, Option, none, some}
use nomad_firehose.Go.Value.{Bytes}
use nomad_firehose.Command.Lifecycle.{Running, stop_firehose}
use nomad_firehose.Sink.Start.{passes, panics}
use nomad_firehose.Sink.Interface.{SinkInterface}

-- Where the deferred function is: before it closes `stopCh` of the firehose, in the loop of the sink's
-- Stop, before the unlock, at its end, or in a panic.
pub data Phase : Type 0 where
  called draining stopped unlocked panicked : Phase

module _ (k : SinkInterface) where
  pub record Ending : Type 0 where
    pub running : Running
    pub sink : k.State
    pub phase : Phase

  -- What may happen next. The sink's goroutines go on, and so does the watcher of the firehose, which does
  -- not look at `stopCh` and puts what it finds.
  pub data Step (e : Ending) : Ending → Type 0 where
    close_channel :
        (r : Running)
        → e.phase ≡ called
        → stop_firehose e.running ≡ some r
        → Step e (record e { running = r; phase = draining })
    panic :
        e.phase ≡ called → stop_firehose e.running ≡ none → Step e (record e { phase = panicked })
    pass :
        (s : k.State)
        → e.phase ≡ draining
        → k.stop e.sink ≡ passes s
        → Step e (record e { sink = s; phase = stopped })
    sink_panic :
        e.phase ≡ draining → k.stop e.sink ≡ panics → Step e (record e { phase = panicked })
    unlock : e.phase ≡ stopped → Step e (record e { phase = unlocked })
    put : (d : Bytes) (s : k.State) → k.put e.sink d ≡ some s → Step e (record e { sink = s })
    go_on : (s : k.State) → k.Step e.sink s → Step e (record e { sink = s })

  pub data Steps (e : Ending) : Ending → Type 0 where
    here : Steps e e
    then_ : {f g : Ending} → Steps e f → Step f g → Steps e g
