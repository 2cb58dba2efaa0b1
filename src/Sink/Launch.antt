-- ===== src/Sink/Launch.antt =====
-- A sink that GetSink of sink/helper.go has made, once its Start was called.
pub mod Laws
pub mod Settle
use nomad_firehose.Sink.Config.{
  Sink, http, rabbitmq, mongodb, kafka, kinesis, nsq, redis, stdout, syslog, sqs, event_bridge,
}
use nomad_firehose.Base.{ℕ, Bool, Option, String}
use nomad_firehose.Go.Value.{Bytes}
use nomad_firehose.Sink.Start.{Started}
use nomad_firehose.Sink.Interface.{SinkInterface}
use nomad_firehose.Sink.Batch.Interface.{batch_sink}
use nomad_firehose.Sink.Http
use nomad_firehose.Sink.Rabbitmq
use nomad_firehose.Sink.Mongodb
use nomad_firehose.Sink.Kafka
use nomad_firehose.Sink.Kinesis
use nomad_firehose.Sink.Nsq
use nomad_firehose.Sink.Redis
use nomad_firehose.Sink.Stdout
use nomad_firehose.Sink.Syslog
use nomad_firehose.Sink.Sqs
use nomad_firehose.Sink.EventBridge

-- `sink.Start()`.
unfoldable pub launch : Sink → Started
launch (http address count) = Http.start (record { address = address; worker_count = count })
launch (rabbitmq _ exchange routing_key count) =
    Rabbitmq.start (record { exchange = exchange; routing_key = routing_key; worker_count = count })
launch (mongodb _ database collection count) =
    Mongodb.start (record { database = database; collection = collection; worker_count = count })
launch (kafka _ _ _ _) = Kafka.start
launch (kinesis _ _) = Kinesis.start
launch (nsq _) = Nsq.start
launch (redis _ _) = Redis.start
launch stdout = Stdout.start
launch (syslog _ _ _) = Syslog.start
launch (sqs _ _) = Sqs.start
launch (event_bridge _ _ _) = EventBridge.start

-- What the client libraries do, on a state of the world outside.
pub record Libraries : Type 1 where
  pub World : Type 0
  pub world : World
  pub post : World → Http.Post → World × Bool
  pub channel : ℕ → Bool
  pub publish : World → Rabbitmq.Publishing → World × Bool
  pub close_connection : World → World
  pub Document : Type 0
  pub unmarshal : Bytes → Option Document
  pub insert_one : World → Mongodb.Insert Document → World × Bool
  pub disconnect : World → World
  pub send_message : World → Kafka.ProducerMessage → World × Bool
  pub put_record : World → Kinesis.PutRecordInput → World × Bool
  pub nsq_publish : World → String × Bytes → World × Bool
  pub pool : Redis.Pool
  pub conns : pool.Conns
  pub rpush : World → Redis.Push → World × Bool
  pub close_pool : pool.Conns → pool.Conns
  pub dial : String → String → Syslog.Priority → String → Bool
  pub log : World → Bytes → World × Bool

module _ (l : Libraries) where
  -- The sink behind the interface.
  abbrev pub implementation : Sink → SinkInterface
  implementation (http address count) =
      Http.implementation l.post (record { address = address; worker_count = count }) l.world
  implementation (rabbitmq _ exchange routing_key count) =
      Rabbitmq.implementation l.publish l.close_connection l.channel
        (record { exchange = exchange; routing_key = routing_key; worker_count = count }) l.world
  implementation (mongodb _ database collection count) =
      Mongodb.implementation l.unmarshal l.insert_one l.disconnect
        (record { database = database; collection = collection; worker_count = count }) l.world
  implementation (kafka _ topic _ _) = Kafka.implementation l.send_message topic l.world
  implementation (kinesis stream_name partition_key) =
      Kinesis.implementation l.put_record
        (record { stream_name = stream_name; partition_key = partition_key }) l.world
  implementation (nsq topic_name) = Nsq.implementation l.nsq_publish topic_name l.world
  implementation (redis _ key) =
      Redis.implementation l.pool l.rpush l.close_pool key l.conns l.world
  implementation stdout = Stdout.implementation
  implementation (syslog proto addr tag) =
      Syslog.implementation l.dial l.log
        (record { addr = addr; proto = proto; priority = Syslog.log_info; tag = tag }) l.world
  implementation (sqs _ _) = batch_sink Sqs.start
  implementation (event_bridge _ _ _) = batch_sink EventBridge.start
