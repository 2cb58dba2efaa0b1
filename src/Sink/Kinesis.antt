-- ===== src/Sink/Kinesis.antt =====
-- sink/kinesis.go. The stream is a parameter.
use nomad_firehose.Base.{length, true, false, Bool, [], ◌∷◌, String}
use nomad_firehose.Go.Value.{Bytes}
use nomad_firehose.Sink.Start.{Started}
use nomad_firehose.Sink.Calls.{Calls, call, connected}
use nomad_firehose.Sink.Service.{service_sink}
use nomad_firehose.Sink.Interface.{SinkInterface}

pub record KinesisSink : Type 0 where
  pub stream_name : String
  pub partition_key : String

-- Three writers.
unfoldable pub start : Started
start = record { writers = 1 ∷ 2 ∷ 3 ∷ []; batches = false; waits = true }

pub record PutRecordInput : Type 0 where
  pub payload : Bytes
  pub stream_name : String
  pub partition_key : String

module _ {S : Type 0} (put_record : S → PutRecordInput → S × Bool) (s : KinesisSink) where
  -- The body of the loop of `write`.
  unfoldable pub write : Calls S PutRecordInput → Bytes → Calls S PutRecordInput
  unfolding call
  write w d =
      call put_record w
        (record { payload = d; stream_name = s.stream_name; partition_key = s.partition_key })

  -- The sink as a whole, of a client in that state.
  abbrev pub implementation : S → SinkInterface
  implementation service =
      service_sink start (length start.writers) write (λ w. w) (connected service)
