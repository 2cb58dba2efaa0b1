-- ===== src/Sink/Kafka.antt =====
-- sink/kafka.go. The brokers are a parameter.
use nomad_firehose.Base.{length, false, Bool, [], ◌∷◌, String}
use nomad_firehose.Go.Value.{Bytes}
use nomad_firehose.Sink.Start.{Started}
use nomad_firehose.Sink.Calls.{Calls, call, connected}
use nomad_firehose.Sink.Service.{service_sink}
use nomad_firehose.Sink.Interface.{SinkInterface}

-- `Start` does not wait for `stopCh`.
unfoldable pub start : Started
start = record { writers = 0 ∷ []; batches = false; waits = false }

pub record ProducerMessage : Type 0 where
  pub topic : String
  pub value : Bytes

module _ {S : Type 0} (send_message : S → ProducerMessage → S × Bool) (topic : String) where
  -- The body of the loop of `write`.
  unfoldable pub write : Calls S ProducerMessage → Bytes → Calls S ProducerMessage
  unfolding call
  write w d = call send_message w (record { topic = topic; value = d })

  -- The sink as a whole, of a client in that state.
  abbrev pub implementation : S → SinkInterface
  implementation service =
      service_sink start (length start.writers) write (λ w. w) (connected service)
