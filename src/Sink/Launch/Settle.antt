-- ===== src/Sink/Launch/Settle.antt =====
-- Every sink that GetSink of sink/helper.go makes, with what becomes of the messages that it has accepted.
use nomad_firehose.Base.{
  false, ◌≡◌, refl, ap, subst, ◌<◌, ◌∙◌, sym, List, [], ◌∷◌, length, arith, true,
}
use nomad_firehose.Go.Value.{Bytes}
use nomad_firehose.Sink.Config.{
  Sink, http, rabbitmq, mongodb, kafka, kinesis, nsq, redis, stdout, syslog, sqs, event_bridge,
}
use nomad_firehose.Sink.Start.{waits, passes}
use nomad_firehose.Sink.Mailbox.{Bag, bag}
use nomad_firehose.Sink.Interface.{
  SinkInterface, Reach, begin, put, stop, go_on, Goes, still, Settles,
}
use nomad_firehose.Sink.Interface.Laws.{finished-Reach, Reach-Goes}
use nomad_firehose.Sink.Service.Settle.{service-Settles}
use nomad_firehose.Sink.Service.Stuck.{no_writer_stuck}
use nomad_firehose.Sink.Batch.Settle.{batch-Settles}
use nomad_firehose.Sink.Launch.{Libraries, implementation}
use nomad_firehose.Sink.Http
use nomad_firehose.Sink.Rabbitmq
use nomad_firehose.Sink.Mongodb
use nomad_firehose.Sink.Kafka
use nomad_firehose.Sink.Kinesis
use nomad_firehose.Sink.Nsq
use nomad_firehose.Sink.Redis
use nomad_firehose.Sink.Stdout
use nomad_firehose.Sink.Syslog

stdout_empty :
    {ds : List Bytes} {s : Stdout.StdoutSink} → Reach Stdout.implementation ds s → s.put_ch ≡ []
unfolding Stdout.put Stdout.stop
stdout_empty begin = refl
stdout_empty (put {s = s} {s' = s'} d r e) =
    let same : Stdout.put s d ≡ s' = cc in ap (λ x. x.put_ch) (sym same) ∙ stdout_empty r
stdout_empty (stop {s = s} {s' = s'} r e) =
    let same : s'.put_ch ≡ s.put_ch = ground arith in same ∙ stdout_empty r
stdout_empty (go_on r st) = absurd st

stdout-Settles :
    (s : Stdout.StdoutSink) → s.put_ch ≡ [] → s.closed ≡ false → Settles Stdout.implementation s
unfolding Stdout.stop
stdout-Settles s e o =
    let p : Stdout.is_drained s.put_ch ≡ true = ap Stdout.is_drained e in
    (s, still, ap bag e, (record s { closed = true }, rw (p, o) refl))

module _ (l : Libraries) where
  -- A writer comes to its loop: the counts of workers are positive, the server of syslog answers, and the
  -- broker of RabbitMQ gives a channel to one of the workers.
  abbrev pub SomeWriter : Sink → Type 0
  SomeWriter (http address count) =
      0 < length (Http.start (record { address = address; worker_count = count })).writers
  SomeWriter (rabbitmq _ exchange routing_key count) =
      0
      < length (
          Rabbitmq.live_writers l.channel
            (record { exchange = exchange; routing_key = routing_key; worker_count = count }))
  SomeWriter (mongodb _ database collection count) =
      0
      < length
          (Mongodb.start
            (record { database = database; collection = collection; worker_count = count })).writers
  SomeWriter (syslog proto addr tag) =
      0
      < length (
          Syslog.live_writers l.dial
            (record { addr = addr; proto = proto; priority = Syslog.log_info; tag = tag }))
  SomeWriter _ = Unit

  settles :
      (sink : Sink) {ds : List Bytes} {s : (implementation l sink).State}
      → SomeWriter sink
      → Reach (implementation l sink) ds s
      → (implementation l sink).stopped s ≡ false
      → Settles (implementation l sink) s
  unfolding Kafka.start Kinesis.start Nsq.start Redis.start
  settles (http address count) {s = s} w r o = service-Settles _ _ _ _ _ s w o
  settles (rabbitmq a b c d) {s = s} w r o = service-Settles _ _ _ _ _ s w o
  settles (mongodb a b c d) {s = s} w r o = service-Settles _ _ _ _ _ s w o
  settles (kafka a b c d) {s = s} w r o = service-Settles _ _ _ _ _ s (omega arith) o
  settles (kinesis a b) {s = s} w r o = service-Settles _ _ _ _ _ s (omega arith) o
  settles (nsq a) {s = s} w r o = service-Settles _ _ _ _ _ s (omega arith) o
  settles (redis a b) {s = s} w r o = service-Settles _ _ _ _ _ s (omega arith) o
  settles stdout {s = s} w r o = stdout-Settles s (stdout_empty r) o
  settles (syslog a b c) {s = s} w r o = service-Settles _ _ _ _ _ s w o
  settles (sqs a b) {s = s} w r o = batch-Settles _ s o
  settles (event_bridge a b c) {s = s} w r o = batch-Settles _ s o

  -- The goroutines of the sink can go on, without another `Put`, to a state in which `Stop` passes, and what
  -- was handed over by then is as the predicate says.
  abbrev pub Completes : (sink : Sink) → (implementation l sink).State → (Bag → Type 0) → Type 0
  Completes sink s P =
      (s' : (implementation l sink).State) × (s'' : (implementation l sink).State) × Goes
        (implementation l sink) s s'
      × ((implementation l sink).stop s' ≡ passes s'')
      × P ((implementation l sink).view s'').finished

  -- From every state that a sink made by `GetSink` reaches before `Stop` closes `stopCh`,
  -- whatever its type, in any interleaving, one with a writer in its loop if it is of HTTP,
  -- RabbitMQ, MongoDB or syslog: its goroutines can go on, without another `Put`, to a state in
  -- which `Stop` passes and the messages that were handed over are exactly those that `Put` has
  -- accepted, each as often as it was put.
  pub sink_completes :
      (sink : Sink) {ds : List Bytes} {s : (implementation l sink).State}
      → SomeWriter sink
      → Reach (implementation l sink) ds s
      → (implementation l sink).stopped s ≡ false
      → Completes sink s (λ b. b ≡ bag ds)
  sink_completes sink w r o =
      let k : SinkInterface = implementation l sink in
      let (s', g, e, (s'', passed)) = settles sink w r o in
      let same = k.stop-same s' s'' passed in
      (
        s',
        s'',
        g,
        passed,
        finished-Reach k (stop (Reach-Goes k r g) passed) (ap (λ m. m.pending) same ∙ e),
      )

  -- What holds of the messages that were put holds in the end of those that were handed over.
  pub completes :
      (P : Bag → Type 0) (sink : Sink) {ds : List Bytes} {s : (implementation l sink).State}
      → SomeWriter sink
      → Reach (implementation l sink) ds s
      → (implementation l sink).stopped s ≡ false
      → P (bag ds)
      → Completes sink s P
  completes P sink w r o p =
      let (s', s'', g, passed, e) = sink_completes sink w r o in
      (s', s'', g, passed, subst P (sym e) p)

  -- When no writer of a sink made by `GetSink` comes to its loop, as for a number of workers that
  -- is not positive, a broker that gives no channel, or a daemon that cannot be dialled, then in
  -- every state that the sink reaches with at least one accepted message nothing was handed over,
  -- and `Stop` finds messages and waits.
  pub sink_stuck :
      (sink : Sink) {d : Bytes} {ds : List Bytes} {s : (implementation l sink).State}
      → ¬ SomeWriter sink
      → Reach (implementation l sink) (d ∷ ds) s
      → ((implementation l sink).stop s ≡ waits)
        × (((implementation l sink).view s).finished ≡ bag [])
  sink_stuck (http a b) {s = s} w r = no_writer_stuck _ _ _ _ s _ (omega (arith, w)) r
  sink_stuck (rabbitmq a b c d) {s = s} w r = no_writer_stuck _ _ _ _ s _ (omega (arith, w)) r
  sink_stuck (mongodb a b c d) {s = s} w r = no_writer_stuck _ _ _ _ s _ (omega (arith, w)) r
  sink_stuck (syslog a b c) {s = s} w r = no_writer_stuck _ _ _ _ s _ (omega (arith, w)) r
  sink_stuck (kafka a b c d) w r = absurd (w tt)
  sink_stuck (kinesis a b) w r = absurd (w tt)
  sink_stuck (nsq a) w r = absurd (w tt)
  sink_stuck (redis a b) w r = absurd (w tt)
  sink_stuck stdout w r = absurd (w tt)
  sink_stuck (sqs a b) w r = absurd (w tt)
  sink_stuck (event_bridge a b c) w r = absurd (w tt)
