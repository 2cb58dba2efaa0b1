-- ===== src/Sink/Config.antt =====
-- `GetSink` of helper.go and the constructors of the sinks, as functions of the environment. What the
-- client libraries answer while a sink is made is a parameter.
pub mod Known
use text.Mathlib.Text.{◌==◌ as str_eq}
use nomad_firehose.Base.{ℕ, Bool, true, false, List, Option, none, some, String, if◌then◌else◌}
use nomad_firehose.Base.Int.{ℤ, pos_part}
use nomad_firehose.Go.Value.{Bytes}
use nomad_firehose.Go.Strconv.{parse_int}
use nomad_firehose.Go.Text.{codes, split}

-- `os.Getenv`: the empty text for a variable that is not set.
abbrev pub Env : Type 0
Env = String → String

pub data SinkError : Type 0 where
  missing invalid_count invalid_type : String → SinkError
  unreachable unsupported : SinkError

-- `exits` is `log.Fatal`, which ends the process.
pub data Result {ℓ} (A : Type ℓ) : Type ℓ where
  ok : A → Result A
  err : SinkError → Result A
  exits : Result A

infixl 5 ◌>>=◌
abbrev pub ◌>>=◌ {ℓ κ} : {A : Type ℓ} {B : Type κ} → Result A → (A → Result B) → Result B
ok a >>= f = f a
err e >>= f = err e
exits >>= f = exits

-- The build tags of the two files for syslog.
pub data Platform : Type 0 where
  unix windows : Platform

-- The platform of the build, and what the libraries answer: whether a client could be made, and the URL
-- of a queue.
pub record Services : Type 0 where
  pub platform : Platform
  pub amqp_dial : String → Bool
  pub mongo_connect : String → Bool
  pub nsq_producer : String → Bool
  pub kafka_producer : List Bytes → Bool
  pub read_file : String → Bool
  pub queue_url : String → Option String
  pub has_event_bus : String → Bool

abbrev pub is_empty : String → Bool
is_empty v = str_eq v ""

-- A variable that has to be set.
unfoldable pub require : Env → String → Result String
require env name = if is_empty (env name) then err (missing name) else ok (env name)

-- A variable with a default.
unfoldable pub env_or : Env → String → String → String
env_or env name default = if is_empty (env name) then default else env name

-- A number of workers: 1 if the variable is not set.
unfoldable pub worker_count : Env → String → Result ℤ
unfolding env_or
worker_count env name =
    let n = parse_int (codes (env_or env name "1")) in
    elim n.error [ none ↦ ok n.value | some _ ↦ err (invalid_count name) ]

abbrev pub reached : Bool → Result (Unit {0})
reached true = ok tt
reached false = err unreachable

pub data Sink : Type 0 where
  http : (address : String) (workers : ℤ) → Sink
  rabbitmq : (connection exchange routing_key : String) (workers : ℤ) → Sink
  mongodb : (connection database collection : String) (workers : ℤ) → Sink
  kafka : (brokers : List Bytes) (topic : String) (tls sasl : Bool) → Sink
  kinesis : (stream_name partition_key : String) → Sink
  nsq : (topic_name : String) → Sink
  redis : (url key : String) → Sink
  stdout : Sink
  syslog : (proto addr tag : String) → Sink
  sqs : (queue_url group_id : String) → Sink
  event_bridge : (bus_name detail_type source : String) → Sink

unfoldable pub new_http : Env → Result Sink
unfolding require
new_http env = do
  address ← require env "SINK_HTTP_ADDRESS"
  workers ← worker_count env "SINK_WORKER_COUNT"
  ok (http address workers)

unfoldable pub new_rabbitmq : Services → Env → Result Sink
unfolding require
new_rabbitmq services env = do
  connection ← require env "SINK_AMQP_CONNECTION"
  exchange ← require env "SINK_AMQP_EXCHANGE"
  routing_key ← require env "SINK_AMQP_ROUTING_KEY"
  workers ← worker_count env "SINK_AMQP_WORKERS"
  _ ← reached (services.amqp_dial connection)
  ok (rabbitmq connection exchange routing_key workers)

unfoldable pub new_mongodb : Services → Env → Result Sink
unfolding require
new_mongodb services env = do
  connection ← require env "SINK_MONGODB_CONNECTION"
  database ← require env "SINK_MONGODB_DATABASE"
  collection ← require env "SINK_MONGODB_COLLECTION"
  workers ← worker_count env "SINK_MONGODB_WORKERS"
  _ ← reached (services.mongo_connect connection)
  ok (mongodb connection database collection workers)

-- `createTlsConfiguration`: is there a configuration, or does reading the file end the process.
unfoldable pub create_tls_configuration : Services → Env → Result Bool
create_tls_configuration services env =
    if is_empty (env "SINK_KAFKA_CA_CERT_PATH")
    then ok false
    else if services.read_file (env "SINK_KAFKA_CA_CERT_PATH")
    then ok true
    else exits

unfoldable pub new_kafka : Services → Env → Result Sink
unfolding require create_tls_configuration
new_kafka services env = do
  brokers ← require env "SINK_KAFKA_BROKERS"
  let broker_list = split (codes brokers) b','
  topic ← require env "SINK_KAFKA_TOPIC"
  tls ← create_tls_configuration services env
  let sasl = if is_empty (env "SINK_KAFKA_USER") then false else true
  if services.kafka_producer broker_list then ok (kafka broker_list topic tls sasl) else exits

unfoldable pub new_kinesis : Env → Result Sink
unfolding require
new_kinesis env = do
  stream_name ← require env "SINK_KINESIS_STREAM_NAME"
  partition_key ← require env "SINK_KINESIS_PARTITION_KEY"
  ok (kinesis stream_name partition_key)

unfoldable pub new_nsq : Services → Env → Result Sink
unfolding require
new_nsq services env = do
  addr ← require env "SINK_NSQ_ADDR"
  topic_name ← require env "SINK_NSQ_TOPIC_NAME"
  _ ← reached (services.nsq_producer addr)
  ok (nsq topic_name)

unfoldable pub new_redis : Env → Result Sink
unfolding require
new_redis env = do
  url ← require env "SINK_REDIS_URL"
  key ← require env "SINK_REDIS_KEY"
  ok (redis url key)

-- An address is needed only with a protocol.
unfoldable pub new_syslog : Env → Result Sink
unfolding env_or
new_syslog env =
    let tag = env_or env "SINK_SYSLOG_TAG" "nomad-firehose" in
    let made = ok (syslog (env "SINK_SYSLOG_PROTO") (env "SINK_SYSLOG_ADDR") tag) in
    if is_empty (env "SINK_SYSLOG_ADDR")
    then if is_empty (env "SINK_SYSLOG_PROTO") then made else err (missing "SINK_SYSLOG_ADDR")
    else made

-- The constructor of syslog_windows.go: its sink comes with an error, and the callers return the error.
unfoldable pub new_syslog_windows : Result Sink
new_syslog_windows = err unsupported

-- `NewSyslog`, of the file that the build takes.
unfoldable pub new_syslog_for : Platform → Env → Result Sink
unfolding new_syslog_windows
new_syslog_for unix env = new_syslog env
new_syslog_for windows env = new_syslog_windows

unfoldable pub new_sqs : Services → Env → String → Result Sink
unfolding require
new_sqs services env group_id = do
  queue_name ← require env "SINK_SQS_QUEUE_NAME"
  elim (services.queue_url queue_name) [ none ↦ err unreachable | some url ↦ ok (sqs url group_id) ]

unfoldable pub new_event_bus : Services → Env → Result Sink
unfolding require
new_event_bus services env = do
  bus_name ← require env "SINK_EVENT_BUS_NAME"
  _ ← reached (services.has_event_bus bus_name)
  ok (event_bridge bus_name (env "SINK_EVENT_BUS_DETAIL_TYPE") (env "SINK_EVENT_BUS_SOURCE"))

-- The switch over `SINK_TYPE`.
unfoldable pub get_sink : Services → Env → String → Result Sink
get_sink services env resource_name =
    let sink_type = env "SINK_TYPE" in
    if is_empty sink_type
    then err (missing "SINK_TYPE")
    else if str_eq sink_type "amqp"
    then new_rabbitmq services env
    else if str_eq sink_type "http"
    then new_http env
    else if str_eq sink_type "kafka"
    then new_kafka services env
    else if str_eq sink_type "kinesis"
    then new_kinesis env
    else if str_eq sink_type "mongodb"
    then new_mongodb services env
    else if str_eq sink_type "nsq"
    then new_nsq services env
    else if str_eq sink_type "rabbitmq"
    then new_rabbitmq services env
    else if str_eq sink_type "redis"
    then new_redis env
    else if str_eq sink_type "stdout"
    then ok stdout
    else if str_eq sink_type "syslog"
    then new_syslog_for services.platform env
    else if str_eq sink_type "sqs"
    then new_sqs services env resource_name
    else if str_eq sink_type "eventbridge"
    then new_event_bus services env
    else err (invalid_type sink_type)
