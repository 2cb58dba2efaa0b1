-- ===== src/Sink/Nsq.antt =====
-- sink/nsq.go. The daemon is a parameter.
use nomad_firehose.Base.{length, true, false, Bool, [], ◌∷◌, String}
use nomad_firehose.Go.Value.{Bytes}
use nomad_firehose.Sink.Start.{Started}
use nomad_firehose.Sink.Calls.{Calls, call, connected}
use nomad_firehose.Sink.Service.{service_sink}
use nomad_firehose.Sink.Interface.{SinkInterface}

unfoldable pub start : Started
start = record { writers = 1 ∷ []; batches = false; waits = true }

module _ {S : Type 0} (publish : S → String × Bytes → S × Bool) (topic_name : String) where
  -- The body of the loop of `write`.
  unfoldable pub write : Calls S (String × Bytes) → Bytes → Calls S (String × Bytes)
  unfolding call
  write w d = call publish w (topic_name, d)

  -- The sink as a whole, of a client in that state.
  abbrev pub implementation : S → SinkInterface
  implementation service =
      service_sink start (length start.writers) write (λ w. w) (connected service)
