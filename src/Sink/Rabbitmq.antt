-- ===== src/Sink/Rabbitmq.antt =====
-- sink/rabbitmq.go. The broker is a parameter; a writer that gets no channel of the connection returns
-- before its loop.
pub mod Laws
use nomad_firehose.Base.{length, ℕ, true, false, Bool, List, String, select}
use nomad_firehose.Base.Int.{ℤ}
use nomad_firehose.Go.Value.{Bytes}
use nomad_firehose.Sink.Start.{Started, worker_ids}
use nomad_firehose.Sink.Calls.{Calls, call, connected}
use nomad_firehose.Sink.Service.{service_sink}
use nomad_firehose.Sink.Interface.{SinkInterface}

pub record RabbitmqSink : Type 0 where
  pub exchange : String
  pub routing_key : String
  pub worker_count : ℤ

unfoldable pub start : RabbitmqSink → Started
start s = record { writers = worker_ids s.worker_count; batches = false; waits = true }

pub record Publishing : Type 0 where
  pub exchange : String
  pub routing_key : String
  pub mandatory : Bool
  pub immediate : Bool
  pub content_type : String
  pub body : Bytes

-- The writers that come to their loop: those for which `conn.Channel()` gives a channel.
unfoldable pub live_writers : (ℕ → Bool) → RabbitmqSink → List ℕ
unfolding start
live_writers channel s = select channel (start s).writers

module _ {S : Type 0} (publish : S → Publishing → S × Bool) (s : RabbitmqSink) where
  -- The body of the loop of `write`.
  unfoldable pub write : Calls S Publishing → Bytes → Calls S Publishing
  unfolding call
  write w d = call publish w (record {
    exchange = s.exchange;
    routing_key = s.routing_key;
    mandatory = false;
    immediate = false;
    content_type = "application/json";
    body = d;
  })

-- `Stop` ends with the closing of the connection.
unfoldable pub close : {S R : Type 0} → (S → S) → Calls S R → Calls S R
close close_connection w = record w { service = close_connection w.service }

module _ {S : Type 0} (publish : S → Publishing → S × Bool) (close_connection : S → S)
    (channel : ℕ → Bool) (s : RabbitmqSink) where
  -- The sink as a whole, of a client in that state.
  abbrev pub implementation : S → SinkInterface
  implementation service =
      service_sink (start s) (length (live_writers channel s)) (write publish s)
        (close close_connection) (connected service)
