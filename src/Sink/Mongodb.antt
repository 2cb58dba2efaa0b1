-- ===== src/Sink/Mongodb.antt =====
-- sink/mongodb.go. json.Unmarshal and the database are parameters.
pub mod Laws
use nomad_firehose.Base.{length, true, false, Bool, List, Option, none, some, String}
use nomad_firehose.Base.Int.{ℤ}
use nomad_firehose.Go.Value.{Bytes}
use nomad_firehose.Sink.Start.{Started, worker_ids}
use nomad_firehose.Sink.Calls.{Calls, call, connected}
use nomad_firehose.Sink.Service.{service_sink}
use nomad_firehose.Sink.Interface.{SinkInterface}

pub record MongodbSink : Type 0 where
  pub database : String
  pub collection : String
  pub worker_count : ℤ

unfoldable pub start : MongodbSink → Started
start s = record { writers = worker_ids s.worker_count; batches = false; waits = true }

-- A document for a collection of a database.
abbrev pub Insert : Type 0 → Type 0
Insert Doc = String × String × Doc

module _ {S Doc : Type 0} (unmarshal : Bytes → Option Doc) (insert_one : S → Insert Doc → S × Bool)
    (s : MongodbSink) where
  -- The body of the loop of `write`: what is no JSON object is logged and dropped.
  unfoldable pub write : Calls S (Insert Doc) → Bytes → Calls S (Insert Doc)
  unfolding call
  write w d = elim (unmarshal d) [
    | none ↦ w
    | some m ↦ call insert_one w (s.database, s.collection, m)
  ]

-- `Stop` ends with `Disconnect`.
unfoldable pub close : {S R : Type 0} → (S → S) → Calls S R → Calls S R
close disconnect w = record w { service = disconnect w.service }

module _ {S Doc : Type 0} (unmarshal : Bytes → Option Doc) (insert_one : S → Insert Doc → S × Bool)
    (disconnect : S → S) (s : MongodbSink) where
  -- The sink as a whole, of a client in that state.
  abbrev pub implementation : S → SinkInterface
  implementation service =
      service_sink (start s) (length (start s).writers) (write unmarshal insert_one s)
        (close disconnect) (connected service)
