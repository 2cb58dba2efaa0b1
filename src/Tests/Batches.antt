-- ===== src/Tests/Batches.antt =====
-- A batch of two messages on its way through sink/sqs.go and sink/event_bridge.go.
use nomad_firehose.Base.{
  ℕ, suc, ◌≡◌, refl, false, none, List, [], ◌∷◌, Option, map, gather, All, arith,
}
use nomad_firehose.Go.Value.{Bytes}
use nomad_firehose.Sink.Batch
use nomad_firehose.Sink.Batch.Requests.{Fits, sqs_sends_all, event_bridge_sends_all}
use nomad_firehose.Sink.Sqs
use nomad_firehose.Sink.Sqs.Ids.{numbered, number_batches, IdsDiffer}
use nomad_firehose.Sink.Sqs.Calls.{send_all}
use nomad_firehose.Sink.EventBridge
use nomad_firehose.Tests.Sinks.{a, b, small_queue}

abbrev drained : Batch.Batcher
drained = record {
  put_ch = [];
  buffer = [];
  phase = Batch.selecting;
  batch_ch = [];
  taken = (a ∷ b ∷ []) ∷ [];
  closed = false;
}

drained-Reach : Batch.Reach (a ∷ b ∷ []) drained
unfolding Batch.step
drained-Reach =
    Batch.go_on Batch.take
      (Batch.go_on Batch.send
        (Batch.go_on Batch.tick
          (Batch.go_on Batch.receive
            (Batch.go_on Batch.receive
              (Batch.go_on (Batch.put b) (Batch.go_on (Batch.put a) Batch.begin refl) refl) refl)
            refl)
          refl)
        refl)
      refl

sqs_sends_all_example :
    let sent = number_batches "nodes" 0 drained.taken in
    (Sqs.write small_queue "nodes" 0 drained.taken ≡ send_all small_queue 0 sent)
    × (gather (λ l. l) sent ≡ numbered "nodes" 0 (a ∷ b ∷ []))
    × IdsDiffer (gather (λ l. l) sent)
    × All (λ c. Fits c.0) (Sqs.write small_queue "nodes" 0 drained.taken).calls
sqs_sends_all_example =
    sqs_sends_all small_queue "nodes" 0 (a ∷ b ∷ []) drained drained-Reach refl refl refl
      (omega arith)

abbrev bus : EventBridge.EbSink
bus = record { bus_name = "default"; detail_type = "nodes"; source = "nomad" }

abbrev accepting : ℕ → List EventBridge.Entry → ℕ × Option Bytes
accepting n es = (suc n, none)

event_bridge_sends_all_example :
    let requests = map (λ c. c.0) (EventBridge.write accepting bus 0 drained.taken).calls in
    (gather (λ l. l) requests ≡ map (EventBridge.entry bus) (a ∷ b ∷ [])) × All Fits requests
event_bridge_sends_all_example =
    event_bridge_sends_all accepting bus 0 (a ∷ b ∷ []) drained drained-Reach refl refl refl
