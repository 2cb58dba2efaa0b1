-- ===== src/Tests/Services.antt =====
-- The sinks as a whole, with a service that counts its calls.
use text.Mathlib.Text.{◌==◌ as str_eq}
use nomad_firehose.Base.{
  length, ℕ, suc, ◌≡◌, refl, true, false, [], ◌∷◌, map, foldl, Option, none, some, arith, Bool,
  if◌then◌else◌, leb, ltb, ◌-◌,
}
use nomad_firehose.Base.Int.{pos, negsuc}
use nomad_firehose.Go.Strconv.{parse_int}
use nomad_firehose.Sink.Config
use nomad_firehose.Sink.Launch.{launch}
use nomad_firehose.Sink.Launch.Laws.{wanted, get_sink_writers}
use nomad_firehose.Tests.Sinks.{services}
use nomad_firehose.Go.Value.{Bytes}
use nomad_firehose.Sink.Queue
use nomad_firehose.Sink.Calls.{connected, Calls}
use nomad_firehose.Sink.Calls.Laws.{requests}
use nomad_firehose.Sink.Run.{Sink, Runs, begin, put, go_on}
use nomad_firehose.Sink.Kafka
use nomad_firehose.Sink.Delivered.{kafka_message, kafka_in_order}
use nomad_firehose.Sink.Http
use nomad_firehose.Sink.Http.Laws.{answered, bodies_stay_open}
use nomad_firehose.Sink.Mongodb
use nomad_firehose.Sink.Redis
use nomad_firehose.Sink.Redis.Laws.{connections_given_back}
use nomad_firehose.Sink.Rabbitmq

abbrev a : Bytes
a = 1 ∷ []

-- It fails from the third call on.
abbrev pub counting : {R : Type 0} → ℕ → R → ℕ × Bool
counting n r = (suc n, leb n 1)

abbrev kafka_body : Calls ℕ Kafka.ProducerMessage → Bytes → Calls ℕ Kafka.ProducerMessage
kafka_body = Kafka.write counting "nomad"

abbrev after_one : Sink (Calls ℕ Kafka.ProducerMessage)
after_one = record {
  queue = record { put_ch = []; held = []; attempted = a ∷ []; closed = false };
  wire = kafka_body (connected 0) a;
}

after_one-Runs : Runs kafka_body (λ w. w) 1 (connected 0) (a ∷ []) after_one
after_one-Runs =
    go_on (go_on (put a begin (omega arith)) (Queue.take a [] refl (omega arith)))
      (Queue.write [] [] a refl)

kafka_in_order_example : requests after_one.wire ≡ map (kafka_message "nomad") (a ∷ [])
unfolding Kafka.start
kafka_in_order_example =
    kafka_in_order counting "nomad" 0 (a ∷ []) after_one after_one-Runs refl refl refl

abbrev http : Http.HttpSink
http = record { address = "http://sink"; worker_count = pos 1 }

abbrev posted : Http.Posting ℕ
posted =
    foldl (Http.send counting http)
      (record { posts = record { service = 0; calls = [] }; deferred = 0 }) (a ∷ a ∷ a ∷ [])

bodies_stay_open_example :
    (requests posted.posts ≡ map (λ d. (http.address, d)) (a ∷ a ∷ a ∷ []))
    × (posted.deferred ≡ answered posted)
bodies_stay_open_example = bodies_stay_open counting http 0 (a ∷ a ∷ a ∷ [])

abbrev mongodb : Mongodb.MongodbSink
mongodb = record { database = "d"; collection = "c"; worker_count = pos 1 }

-- The empty text is no JSON.
abbrev decode : Bytes → Option ℕ
decode [] = none
decode (c ∷ _) = some c

-- A pool that counts.
abbrev pub counter : Redis.Pool
counter = record {
  Conns = ℕ;
  in_use = λ n. n;
  available = λ n. true;
  get = λ n. if ltb n 2 then (suc n, true) else (n, false);
  give_back = λ n. n - 1;
  get_true = λ n up lt. ground arith;
  in_use-get = λ n got. ground arith;
  in_use-give_back = λ c n e. omega arith;
}

abbrev unused : Redis.Pushing counter ℕ
unused = record { pushes = record { service = 0; calls = [] }; conns = 0; refused = 0 }

connections_given_back_example :
    let w = foldl (Redis.write counter counting "key") unused (a ∷ a ∷ []) in
    (w.conns ≡ 0) × (w.refused ≡ 0) × (requests w.pushes ≡ map (λ d. ("key", d)) (a ∷ a ∷ []))
connections_given_back_example =
    connections_given_back counter counting "key" unused (a ∷ a ∷ []) refl (refl, (refl, tt))

abbrev rabbitmq : Rabbitmq.RabbitmqSink
rabbitmq = record { exchange = "e"; routing_key = "r"; worker_count = pos 2 }

abbrev waiting : Sink (Calls ℕ Rabbitmq.Publishing)
waiting = record {
  queue = record { put_ch = a ∷ []; held = []; attempted = []; closed = false };
  wire = connected 0;
}

-- A sink of the HTTP type, with -2 as its address and as its number of workers.
abbrev minus_two : Config.Env
minus_two name = if str_eq name "SINK_TYPE" then "http" else "-2"

minus_two_made :
    Config.get_sink services minus_two "nodes" ≡ Config.ok (Config.http "-2" (negsuc 1))
unfolding Config.get_sink Config.new_http Config.worker_count parse_int
minus_two_made = refl

get_sink_writers_example : length (launch (Config.http "-2" (negsuc 1))).writers ≡ wanted minus_two
get_sink_writers_example =
    get_sink_writers services minus_two (Config.http "-2" (negsuc 1)) "nodes" minus_two_made
