-- ===== src/Sink/Launch/Laws.antt =====
-- The writers of the sink that the environment asks for.
use text.Mathlib.Text.{◌==◌ as str_eq}
use nomad_firehose.Base.{
  ℕ, ◌≡◌, ◌⊎◌, inl, inr, Bool, true, false, String, arith, none, Option-cases, if◌then◌else◌,
  length,
}
use nomad_firehose.Base.Int.{pos_part}
use nomad_firehose.Go.Strconv.{parse_int}
use nomad_firehose.Go.Text.{codes}
use nomad_firehose.Sink.Config
use nomad_firehose.Sink.Config.{
  Env, Services, is_empty, invalid_count, Result, Sink, ok, err, exits, require, env_or,
  worker_count, reached, get_sink,
}
use nomad_firehose.Sink.Start.{length-worker_ids}
use nomad_firehose.Sink.Http
use nomad_firehose.Sink.Rabbitmq
use nomad_firehose.Sink.Mongodb
use nomad_firehose.Sink.Kafka
use nomad_firehose.Sink.Kinesis
use nomad_firehose.Sink.Nsq
use nomad_firehose.Sink.Redis
use nomad_firehose.Sink.Stdout
use nomad_firehose.Sink.Syslog
use nomad_firehose.Sink.Sqs
use nomad_firehose.Sink.EventBridge
use nomad_firehose.Sink.Launch.{launch}

-- The writers of a count that is set by a variable.
abbrev pub counted : Env → String → ℕ
counted env name = pos_part (parse_int (codes (env_or env name "1"))).value

-- The writers that the environment asks for, by the type of the sink.
abbrev pub wanted : Env → ℕ
wanted env =
    let t = env "SINK_TYPE" in
    if str_eq t "amqp"
    then counted env "SINK_AMQP_WORKERS"
    else if str_eq t "http"
    then counted env "SINK_WORKER_COUNT"
    else if str_eq t "kafka"
    then 1
    else if str_eq t "kinesis"
    then 3
    else if str_eq t "mongodb"
    then counted env "SINK_MONGODB_WORKERS"
    else if str_eq t "nsq"
    then 1
    else if str_eq t "rabbitmq"
    then counted env "SINK_AMQP_WORKERS"
    else if str_eq t "redis"
    then 1
    else if str_eq t "stdout"
    then 0
    else 1

worker_count_cases :
    (env : Env) (name : String)
    → let n = parse_int (codes (env_or env name "1")) in
      ((worker_count env name ≡ ok n.value) × (n.error ≡ none))
      ⊎ (worker_count env name ≡ err (invalid_count name))
unfolding worker_count
worker_count_cases env name = elim (Option-cases (parse_int (codes (env_or env name "1"))).error) [
  | inl e ↦ inl (rw (worker_count, e), e)
  | inr (_, e) ↦ inr (rw (worker_count, e))
]

abbrev writers : Sink → ℕ
writers s = length (launch s).writers

module _ (services : Services) (env : Env) (s : Sink) where
  http_writers : Config.new_http env ≡ ok s → writers s ≡ counted env "SINK_WORKER_COUNT"
  unfolding Config.new_http launch Http.start
  http_writers h = ground (
    arith,
    worker_count_cases env "SINK_WORKER_COUNT",
    length-worker_ids (parse_int (codes (env_or env "SINK_WORKER_COUNT" "1"))).value,
  )

  rabbitmq_writers :
      Config.new_rabbitmq services env ≡ ok s → writers s ≡ counted env "SINK_AMQP_WORKERS"
  unfolding Config.new_rabbitmq launch Rabbitmq.start
  rabbitmq_writers h = ground (
    arith,
    worker_count_cases env "SINK_AMQP_WORKERS",
    length-worker_ids (parse_int (codes (env_or env "SINK_AMQP_WORKERS" "1"))).value,
  )

  mongodb_writers :
      Config.new_mongodb services env ≡ ok s → writers s ≡ counted env "SINK_MONGODB_WORKERS"
  unfolding Config.new_mongodb launch Mongodb.start
  mongodb_writers h = ground (
    arith,
    worker_count_cases env "SINK_MONGODB_WORKERS",
    length-worker_ids (parse_int (codes (env_or env "SINK_MONGODB_WORKERS" "1"))).value,
  )

  kafka_writers : Config.new_kafka services env ≡ ok s → writers s ≡ 1
  unfolding Config.new_kafka launch Kafka.start
  kafka_writers h = ground arith

  kinesis_writers : Config.new_kinesis env ≡ ok s → writers s ≡ 3
  unfolding Config.new_kinesis launch Kinesis.start
  kinesis_writers h = ground arith

  nsq_writers : Config.new_nsq services env ≡ ok s → writers s ≡ 1
  unfolding Config.new_nsq launch Nsq.start
  nsq_writers h = ground arith

  redis_writers : Config.new_redis env ≡ ok s → writers s ≡ 1
  unfolding Config.new_redis launch Redis.start
  redis_writers h = ground arith

  syslog_writers : (p : Config.Platform) → Config.new_syslog_for p env ≡ ok s → writers s ≡ 1
  unfolding Config.new_syslog Config.new_syslog_for launch Syslog.start
  syslog_writers Config.unix h = ground arith
  syslog_writers Config.windows h = cc

  sqs_writers : (group_id : String) → Config.new_sqs services env group_id ≡ ok s → writers s ≡ 1
  unfolding Config.new_sqs launch Sqs.start
  sqs_writers group_id h = ground arith

  event_bus_writers : Config.new_event_bus services env ≡ ok s → writers s ≡ 1
  unfolding Config.new_event_bus launch EventBridge.start
  event_bus_writers h = ground arith

  stdout_writers : ok Config.stdout ≡ ok s → writers s ≡ 0
  unfolding launch Stdout.start
  stdout_writers h = ground arith

  err_writers : (e : Config.SinkError) (n : ℕ) → Result.err e ≡ ok s → writers s ≡ n
  err_writers e n h = cc

  -- A test for both.
  either :
      (c : Bool) {x y : Result Sink} {n m : ℕ}
      → (x ≡ ok s → writers s ≡ n)
      → (y ≡ ok s → writers s ≡ m)
      → (if c then x else y) ≡ ok s
      → writers s ≡ (if c then n else m)
  either true f g h = f h
  either false f g h = g h

  -- A test for the sink alone.
  either_same :
      (c : Bool) {x y : Result Sink} {n : ℕ}
      → (x ≡ ok s → writers s ≡ n)
      → (y ≡ ok s → writers s ≡ n)
      → (if c then x else y) ≡ ok s
      → writers s ≡ n
  either_same true f g h = f h
  either_same false f g h = g h

  -- Whatever sink `GetSink` makes, its `Start` makes as many writers as the environment asks for:
  -- for HTTP, RabbitMQ and MongoDB the number in the variable of the sink, 1 if it is not set and
  -- none if it is not positive, none for stdout, three for Kinesis, and one for each other type.
  pub get_sink_writers :
      (resource : String)
      → get_sink services env resource ≡ ok s
      → length (launch s).writers ≡ wanted env
  unfolding get_sink
  get_sink_writers resource =
      let test : String → Bool = str_eq (env "SINK_TYPE") in
      either_same (is_empty (env "SINK_TYPE")) (err_writers _ (wanted env)) (
        either (test "amqp") rabbitmq_writers (
          either (test "http") http_writers (
            either (test "kafka") kafka_writers (
              either (test "kinesis") kinesis_writers (
                either (test "mongodb") mongodb_writers (
                  either (test "nsq") nsq_writers (
                    either (test "rabbitmq") rabbitmq_writers (
                      either (test "redis") redis_writers (
                        either (test "stdout") stdout_writers (
                          either_same (test "syslog") (syslog_writers services.platform) (
                            either_same (test "sqs") (sqs_writers resource) (
                              either_same (test "eventbridge") event_bus_writers
                                (err_writers _ 1)))))))))))))
