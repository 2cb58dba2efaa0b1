-- ===== src/Sink/EventBridge.antt =====
-- `write` and `sendBatch` of event_bridge.go. The event bus is a parameter.
use nomad_firehose.Base.{true, List, [], ◌∷◌, Option, String, map}
use nomad_firehose.Sink.Start.{Started}
use nomad_firehose.Go.Value.{Bytes}

-- One goroutine makes batches, and one writes them.
unfoldable pub start : Started
start = record { writers = 0 ∷ []; batches = true; waits = true }

-- `PutEventsRequestEntry`.
pub record Entry : Type 0 where
  pub event_bus_name : String
  pub detail : Bytes
  pub detail_type : String
  pub source : String

-- The fields of `EBSink` that the writer reads.
pub record EbSink : Type 0 where
  pub bus_name : String
  pub detail_type : String
  pub source : String

abbrev pub entry : EbSink → Bytes → Entry
entry s body = record {
  event_bus_name = s.bus_name;
  detail = body;
  detail_type = s.detail_type;
  source = s.source;
}

pub record Sent (S : Type 0) : Type 0 where
  pub bus : S
  pub calls : List (List Entry × Option Bytes)

-- The writer: each batch is one request, and an error is logged.
unfoldable pub write :
    {S : Type 0} → (S → List Entry → S × Option Bytes) → EbSink → S → List (List Bytes) → Sent S
write put_events s bus [] = record { bus = bus; calls = [] }
write put_events s bus (batch ∷ rest) =
    let (bus1, err) = put_events bus (map (entry s) batch) in
    let more = write put_events s bus1 rest in
    record { bus = more.bus; calls = (map (entry s) batch, err) ∷ more.calls }
