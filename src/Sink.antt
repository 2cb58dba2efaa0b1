-- ===== src/Sink.antt =====
-- The package sink/: where the firehoses put their updates.
pub mod Queue
pub mod Batch
pub mod Sqs
pub mod EventBridge
pub mod Config
pub mod Mailbox
pub mod Interface
pub mod Service
pub mod Calls
pub mod Run
pub mod Start
pub mod Http
pub mod Mongodb
pub mod Redis
pub mod Rabbitmq
pub mod Kafka
pub mod Kinesis
pub mod Nsq
pub mod Syslog
pub mod SyslogWindows
pub mod Stdout
pub mod Delivered
pub mod Launch
