-- ===== src/Sink/Sqs.antt =====
-- `write` and `sendBatch` of sqs.go. The queue of SQS is a parameter: a send changes its state, and may
-- give the text of an error.
pub mod Ids
pub mod Calls
use nomad_firehose.Base.{
  ℕ, Bool, true, List, [], ◌∷◌, ◌++◌, Option, none, some, String, if◌then◌else◌, map,
}
use nomad_firehose.Base.Int.{ℤ, pos}
use nomad_firehose.Sink.Start.{Started}
use nomad_firehose.Go.Value.{Bytes, succ_int64}
use nomad_firehose.Go.Strconv.{format_int}
use nomad_firehose.Go.Text.{codes, contains}

-- One goroutine makes batches, and one writes them.
unfoldable pub start : Started
start = record { writers = 0 ∷ []; batches = true; waits = true }

-- `SendMessageBatchRequestEntry`; the deduplication id is the id.
pub record Entry : Type 0 where
  pub id : Bytes
  pub message_body : Bytes
  pub message_group_id : String
  pub message_deduplication_id : Bytes

abbrev pub entry : String → ℤ → Bytes → Entry
entry group_id id body = record {
  id = format_int id;
  message_body = body;
  message_group_id = group_id;
  message_deduplication_id = format_int id;
}

-- The loop over a batch, with the counter of the writer.
unfoldable pub entries_from : String → ℤ → List Bytes → List Entry × ℤ
entries_from group_id id [] = ([], id)
entries_from group_id id (body ∷ rest) =
    let (es, last) = entries_from group_id (succ_int64 id) rest in
    (entry group_id id body ∷ es, last)

abbrev pub too_long : Bytes
too_long = codes "AWS.SimpleQueueService.BatchRequestTooLong"

abbrev pub is_too_long : Option Bytes → Bool
is_too_long none = Bool.false
is_too_long (some text) = contains text too_long

-- The state of the queue, and the calls of `SendMessageBatch` that were made, in order, each with its
-- error.
pub record Sent (S : Type 0) : Type 0 where
  pub queue : S
  pub calls : List (List Entry × Option Bytes)

module _ {S : Type 0} (send_batch : S → List Entry → S × Option Bytes) where
  -- The loop that sends each entry alone.
  unfoldable pub retry : S → List Entry → Sent S
  retry q [] = record { queue = q; calls = [] }
  retry q (e ∷ es) =
      let (q1, err) = send_batch q (e ∷ []) in
      let rest = retry q1 es in record { queue = rest.queue; calls = (e ∷ [], err) ∷ rest.calls }

  -- One batch: it is sent whole, and entry by entry after an error that it is too long.
  unfoldable pub send_entries : S → List Entry → Sent S
  unfolding retry
  send_entries q es =
      let (q1, err) = send_batch q es in
      let alone = retry q1 es in
      if is_too_long err
      then record { queue = alone.queue; calls = (es, err) ∷ alone.calls }
      else record { queue = q1; calls = (es, err) ∷ [] }

  -- The writer: batch after batch, from a counter that is 0 when it starts.
  unfoldable pub write_from : String → ℤ → S → List (List Bytes) → Sent S
  write_from group_id id q [] = record { queue = q; calls = [] }
  write_from group_id id q (batch ∷ rest) =
      let (es, last) = entries_from group_id id batch in
      let first = send_entries q es in
      let more = write_from group_id last first.queue rest in
      record { queue = more.queue; calls = first.calls ++ more.calls }

  unfoldable pub write : String → S → List (List Bytes) → Sent S
  write group_id q batches = write_from group_id (pos 0) q batches
