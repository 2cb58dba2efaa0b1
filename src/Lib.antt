-- ===== src/Lib.antt =====
-- nomad-firehose watches the HTTP API of Nomad and publishes what changed to a message sink. One process
-- runs one firehose. `helper.Manager` (helper/manager.go) takes a lock in Consul, restores the last
-- change from the KV store, starts the firehose and writes the updates of its last change back. A
-- firehose (command/*) polls a list of Nomad, keeps what changed since its last change, and hands it as
-- JSON to a sink (sink/*), which queues the messages in a channel and writes them out with goroutines.
--
-- Base: tests on the native numbers, lists, ℤ, and the interface `Order` that watchers compare change
--   marks by, with instances for `uint64` indexes and `int64` times.
-- Go: what the source uses of Go. Go/Value: the values behind `interface{}` and the 64-bit conversions.
--   Go/Strconv: `%d`, ParseUint, ParseInt, Atoi; Go/Text: strings.Contains and strings.Split.
-- Helper: helper/manager.go. `Runner` is the interface of a firehose as the manager sees it, `Consul` the
--   KV store with its documented laws. `restore` is restoreLastChangeTime, `lead` the loop of
--   acquireConsulLeadership over what comes in on its channels, `acquire` the whole function, with the
--   actions on lock and runner in order. Helper/Manager/Terms and Keys have the lemmas. `Process` is the
--   loop of continuouslyAcquireConsulLeadership beside signalHandler, with the channels that cleanup
--   closes.
-- Command: command/*. `Watch` is the loop that nodes, deployments and jobs share: `visit` is its body
--   over an item, `round` a turn for an answer of Nomad, `run` the endless loop over the answers that
--   come. `Watch/History` is about answers whose new changes rise, `Watch/Keys` about those whose items
--   tell of one change with other fields each time: an event with the state of its task, a job in a list. `Allocations` has the three nested loops of allocations/app.go, `Evaluations` the loop of
--   evaluations/app.go, `Nodes`, `Deployments` and `Jobs` what is their own. `Publish` has the goroutines
--   that read a resource before they publish it. `Restart` joins the firehoses to the manager, `Delivery`
--   has the loops of nodes, deployments and jobs as a whole, also over a restart, `Lifecycle` the stop
--   channel of a firehose under calls of Start and Stop in any order, `Terms` those of the process, `Made`
--   is NewFirehose, `Persist` the goroutine of persistLastChangeTime between the watcher and the manager.
--   `Allocations/Order` treats the order of the map of tasks, `EndToEnd` joins the watcher of allocations
--   to the queue of a sink and to the manager, `Reads` those of nodes, deployments and jobs to their
--   goroutines and the queue, `AnySink` all of them to whatever sink GetSink makes. `Crash` is about a
--   process that ends at any time (`Crash/Each` for the other firehoses but evaluations), `Cluster` about any number of
--   processes that share the value in Consul, with one term each, whether or not the lock keeps them
--   apart, `Fleet` about those of nodes, deployments and jobs with their watchers, which are an interface
--   that the three packages fill, `Shutdown` about the end of a term: Stop of the firehose, Stop of the
--   sink, the release of the lock.
-- Sink: sink/*. `Queue` is the channel and the writers of the sinks that send one message at a time,
--   `Batch` the batching goroutine of sqs.go and event_bridge.go, `Sqs` and `EventBridge` their writers,
--   `Batch/Requests` both together, `Config` is GetSink of helper.go and the constructors as functions of
--   the environment. `Http`, `Kafka`, `Kinesis`, `Mongodb`, `Nsq`, `Rabbitmq`, `Redis` and `Syslog` have
--   Start and the body of the writer's loop of the file of that name, `Stdout` the sink that prints.
--   `Start` is what Start of a sink has made, `Launch` that of the sink that GetSink made, `Calls` a call
--   of a client library, `Run` a queue together with what its writers did to the service, `Delivered`
--   what has arrived there. `Mailbox` is what every sink promises, with the refinement of both kinds of
--   queue to it. `Interface` is the interface of structs.go with its laws; `Service` fills it for the
--   sinks that send one message at a time, `Batch/Interface` for the batching ones, and each sink has its
--   `implementation`. `Launch` has that of any sink of GetSink, `Launch/Settle` what becomes of its
--   messages. "Handed over" is a message whose write a writer has tried, a message that the writer of
--   batches has taken, or a printed one. `SyslogWindows` is the stub of syslog_windows.go.
-- Program: main.go, its table of commands, how an action ends and the choice of the log format.
-- Tests: runs on concrete inputs.
--
-- Goroutines are step relations, in which any goroutine may go on next; what the manager's channels bring
-- is a list of events in the order in which `select` takes them. Loops over answers and batches are
-- structural recursion on the list of those that come, so no fuel is needed; the decimal printer has fuel
-- for twenty digits, which every number below 2^64 fits. Change marks are below 2^64, since Nomad sends
-- them as `uint64`; the conversions of `SetRestoreValue` and the counter of the SQS writer wrap as in Go,
-- whose `int` has 64 bits here.
--
-- `Stop` of a sink closes `stopCh`, and panics when it is closed: `Look` in Sink/Start is what its loop
-- comes to. Start of a sink, which makes `stopCh` anew, is modelled once for each sink, so what is said of
-- a sink is about the time from one Start to the Stop after it. `Persist`, and with it `Cluster` and
-- `Crash`, has a last change that only rises, so it is not about evaluations, which take any `LastIndex`.
-- A firehose that is read in full is known in a list by its id and index; a job that is published from
-- the list has its other fields as one text.
--
-- Parameters: the KV store of Consul, the answers of its lock and of Nomad, json.Marshal and
-- json.Unmarshal, the services behind the sinks with the pool of Redis connections, and what the client
-- libraries answer when a sink is made. Waiting times, logging and the text of errors are left out, and
-- with them blocking: a put that finds the channel full is no step. The client libraries of all sinks are
-- the record `Libraries` of Sink/Launch; the build for Windows is a field of `Services` in Sink/Config. Not
-- modelled: the library that reads the command line.
pub mod Base
pub mod Go
pub mod Helper
pub mod Command
pub mod Sink
pub mod Program
pub mod Tests
