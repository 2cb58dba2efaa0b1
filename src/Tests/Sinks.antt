-- ===== src/Tests/Sinks.antt =====
-- The sinks on a few messages, and on small environments.
use nomad_firehose.Base.{
  ℕ, suc, ◌+◌, ◌≡◌, refl, true, false, List, [], ◌∷◌, Option, none, some, arith, String,
}
use nomad_firehose.Go.Value.{Bytes}
use nomad_firehose.Go.Text.{codes}
use nomad_firehose.Sink.Queue
use nomad_firehose.Sink.Queue.Drain.{Writing, unmoved, work_on, work, Writing-ends}
use nomad_firehose.Sink.Mailbox
use nomad_firehose.Sink.Mailbox.Refine.{
  queue_view, batch_view, work as work_step, queue_refines, batch_refines,
}
use nomad_firehose.Sink.Batch
use nomad_firehose.Sink.Batch.Laws.{InBounds, batches-InBounds, stop_leaves}
use nomad_firehose.Sink.Sqs
use nomad_firehose.Sink.Config

abbrev pub a : Bytes
a = codes "a"

abbrev pub b : Bytes
b = codes "b"

-- A message that is in the buffer when `Stop` passes.
abbrev buffered : Batch.Batcher
buffered = record {
  put_ch = [];
  buffer = a ∷ [];
  phase = Batch.selecting;
  batch_ch = [];
  taken = [];
  closed = false;
}

abbrev buffered_closed : Batch.Batcher
buffered_closed = record buffered { closed = true }

buffered-Reach : Batch.Reach (a ∷ []) buffered
unfolding Batch.step
buffered-Reach = Batch.go_on Batch.receive (Batch.go_on (Batch.put a) Batch.begin refl) refl

batches-InBounds_example : InBounds buffered
batches-InBounds_example = batches-InBounds buffered-Reach

buffered_stops : Batch.step buffered Batch.stop ≡ some buffered_closed
unfolding Batch.step
buffered_stops = refl

stop_leaves_example : a ∷ [] ≡ a ∷ []
stop_leaves_example = stop_leaves buffered buffered_closed buffered-Reach buffered_stops

-- A queue that counts its calls and refuses more than one entry at a time.
abbrev pub small_queue : ℕ → List Sqs.Entry → ℕ × Option Bytes
small_queue n (e ∷ f ∷ es) = (suc n, some Sqs.too_long)
small_queue n es = (suc n, none)

-- Environments.
abbrev pub services : Config.Services
services = record {
  platform = Config.unix;
  amqp_dial = λ v. true;
  mongo_connect = λ v. true;
  nsq_producer = λ v. true;
  kafka_producer = λ v. true;
  read_file = λ v. true;
  queue_url = λ v. some v;
  has_event_bus = λ v. true;
}

abbrev pub all_are : String → Config.Env
all_are v = λ name. v

-- The same steps, for writers alone.
abbrev all_put : Queue.Queue
all_put = record { put_ch = a ∷ b ∷ []; held = []; attempted = []; closed = false }

all_put-Reach : Queue.Reach 1 (a ∷ b ∷ []) all_put
all_put-Reach = Queue.put b (Queue.put a Queue.begin (omega arith)) (omega arith)

one_written : Writing 1 all_put 2 (record all_put { put_ch = b ∷ []; attempted = a ∷ [] })
one_written =
    work_on (work_on unmoved (Queue.take a (b ∷ []) refl (omega arith)) tt)
      (Queue.write [] [] a refl) tt

Writing-ends_example :
    2 + work (record all_put { put_ch = b ∷ []; attempted = a ∷ [] }) ≡ work all_put
Writing-ends_example = Writing-ends one_written

abbrev taken_one : Queue.Queue
taken_one = record all_put { put_ch = b ∷ []; held = a ∷ [] }

queue_refines_example :
    Mailbox.Moves
      (queue_view taken_one)
      (queue_view (record taken_one { held = []; attempted = a ∷ [] }))
queue_refines_example =
    queue_refines {workers = 1} {q = taken_one} (work_step (Queue.write [] [] a refl))

abbrev in_batch : Batch.Batcher
in_batch = record buffered { buffer = []; batch_ch = (a ∷ b ∷ []) ∷ [] }

takes_batch :
    Batch.step in_batch Batch.take
    ≡ some (record in_batch { batch_ch = []; taken = (a ∷ b ∷ []) ∷ [] })
unfolding Batch.step
takes_batch = refl

batch_refines_example :
    Mailbox.Moves
      (batch_view in_batch)
      (batch_view (record in_batch { batch_ch = []; taken = (a ∷ b ∷ []) ∷ [] }))
batch_refines_example =
    batch_refines in_batch (record in_batch { batch_ch = []; taken = (a ∷ b ∷ []) ∷ [] }) Batch.take
      takes_batch
