-- ===== src/Sink/Delivered.antt =====
-- What kafka, nsq and kinesis have been sent once a sink has nothing left.
use mathlib.Core.List.Perm
use nomad_firehose.Base.{
  ◌≡◌, refl, false, ◌∙◌, ap, Bool, List, [], ◌∷◌, ◌++◌, map, foldl, gather, Perm, String, length,
}
use nomad_firehose.Go.Value.{Bytes}
use nomad_firehose.Sink.Calls.{Calls, connected}
use nomad_firehose.Sink.Calls.Laws.{requests, requests-call, loop_requests}
use nomad_firehose.Sink.Run.{Sink, Runs}
use nomad_firehose.Sink.Run.Laws.{drained_loop, one_writer_loop}
use nomad_firehose.Sink.Kafka
use nomad_firehose.Sink.Kinesis

gather_single : {A B : Type 0} (f : A → B) (xs : List A) → gather (λ x. f x ∷ []) xs ≡ map f xs
gather_single f [] = refl
gather_single f (x ∷ xs) = ap (◌∷◌ (f x)) (gather_single f xs)

-- A body that makes one request for each message.
single_requests :
    {S R : Type 0} (of : Bytes → R) (body : Calls S R → Bytes → Calls S R) (service : S)
    (ds : List Bytes)
    → ((w : Calls S R) (d : Bytes) → requests (body w d) ≡ requests w ++ of d ∷ [])
    → requests (foldl body (connected service) ds) ≡ map of ds
single_requests of body service ds e =
    loop_requests (λ d. of d ∷ []) body e (connected service) ds ∙ gather_single of ds

abbrev pub kafka_message : String → Bytes → Kafka.ProducerMessage
kafka_message topic d = record { topic = topic; value = d }

kafka_write :
    {S : Type 0} (send : S → Kafka.ProducerMessage → S × Bool) (topic : String)
    (w : Calls S Kafka.ProducerMessage) (d : Bytes)
    → requests (Kafka.write send topic w d) ≡ requests w ++ kafka_message topic d ∷ []
unfolding Kafka.write
kafka_write send topic w d = requests-call send w (kafka_message topic d)

-- Once the Kafka sink, which is not stopped, has nothing left in its channel nor in the hand of
-- its writer, the messages that it has given the producer are the accepted ones, in their order,
-- each for the configured topic, whatever the producer answered.
pub kafka_in_order :
    {S : Type 0} (send : S → Kafka.ProducerMessage → S × Bool) (topic : String) (service : S)
    (ds : List Bytes) (s : Sink (Calls S Kafka.ProducerMessage))
    → Runs (Kafka.write send topic) (λ w. w) (length Kafka.start.writers) (connected service) ds s
    → s.queue.closed ≡ false
    → s.queue.put_ch ≡ []
    → s.queue.held ≡ []
    → requests s.wire ≡ map (kafka_message topic) ds
unfolding Kafka.start
kafka_in_order send topic service ds s r o e h =
    ap requests (one_writer_loop (Kafka.write send topic) (λ w. w) r o e h)
    ∙ single_requests (kafka_message topic) (Kafka.write send topic) service ds
        (kafka_write send topic)

abbrev pub kinesis_record : Kinesis.KinesisSink → Bytes → Kinesis.PutRecordInput
kinesis_record k d = record {
  payload = d;
  stream_name = k.stream_name;
  partition_key = k.partition_key;
}

kinesis_write :
    {S : Type 0} (put : S → Kinesis.PutRecordInput → S × Bool) (k : Kinesis.KinesisSink)
    (w : Calls S Kinesis.PutRecordInput) (d : Bytes)
    → requests (Kinesis.write put k w d) ≡ requests w ++ kinesis_record k d ∷ []
unfolding Kinesis.write
kinesis_write put k w d = requests-call put w (kinesis_record k d)

-- Three writers, which may overtake each other: the order is lost, and nothing else.
kinesis_all :
    {S : Type 0} (put : S → Kinesis.PutRecordInput → S × Bool) (k : Kinesis.KinesisSink)
    (service : S) (ds : List Bytes) (s : Sink (Calls S Kinesis.PutRecordInput))
    → Runs (Kinesis.write put k) (λ w. w) (length Kinesis.start.writers) (connected service) ds s
    → s.queue.closed ≡ false
    → s.queue.put_ch ≡ []
    → s.queue.held ≡ []
    → Perm (map (kinesis_record k) ds) (requests s.wire)
kinesis_all put k service ds s r o e h =
    let (wire, p) = drained_loop (Kinesis.write put k) (λ w. w) r o e h in
    rw
      (
        wire,
        single_requests (kinesis_record k) (Kinesis.write put k) service s.queue.attempted
            (kinesis_write put k),
      )
      (Perm.map (kinesis_record k) p)
