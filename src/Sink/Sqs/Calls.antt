-- ===== src/Sink/Sqs/Calls.antt =====
-- The requests that the writer of sink/sqs.go makes.
use nomad_firehose.Base.{
  ℕ, ◌+◌, ◌^◌, ◌<◌, ◌≡◌, refl, ap, List, [], ◌∷◌, ◌++◌, map, length, String, arith, Option,
  Bool-cases, inl, inr, if◌then◌else◌, length, gather,
}
use nomad_firehose.Base.Int.{pos}
use nomad_firehose.Go.Value.{Bytes}
use nomad_firehose.Sink.Sqs.{Entry, Sent, is_too_long, retry, send_entries, write, write_from}
use nomad_firehose.Sink.Sqs.Ids.{
  numbered, number_batches, total, entries_from-numbered, number_batches-flat, IdsDiffer,
  numbered-IdsDiffer, length-gather,
}

module _ {S : Type 0} (send_batch : S → List Entry → S × Option Bytes) where
  retry_calls :
      (q : S) (es : List Entry)
      → map (λ c. c.0) (retry send_batch q es).calls ≡ map (λ e. e ∷ []) es
  unfolding retry
  retry_calls q [] = refl
  retry_calls q (e ∷ es) = ap (◌∷◌ (e ∷ [])) (retry_calls (send_batch q (e ∷ [])).0 es)

  -- For any answers of SQS, a batch is sent whole first; if its error says that the batch is too
  -- long, and only then, each entry is sent once more, alone and in order.
  pub send_entries_calls :
      (q : S) (es : List Entry)
      → map (λ c. c.0) (send_entries send_batch q es).calls
        ≡ es ∷ (if is_too_long (send_batch q es).1 then map (λ e. e ∷ []) es else [])
  unfolding send_entries
  send_entries_calls q es = elim (Bool-cases (is_too_long (send_batch q es).1)) [
    | inl long ↦ rw long (ap (◌∷◌ es) (retry_calls (send_batch q es).0 es))
    | inr short ↦ rw short
  ]

  -- The batches, one after the other, each given as its entries.
  pub send_all : S → List (List Entry) → Sent S
  send_all q [] = record { queue = q; calls = [] }
  send_all q (es ∷ rest) =
      let first = send_entries send_batch q es in
      let more = send_all first.queue rest in
      record { queue = more.queue; calls = first.calls ++ more.calls }

  write_from-send_all :
      (group_id : String) (n : ℕ) (q : S) (batches : List (List Bytes))
      → n + total batches < 2 ^ 63
      → write_from send_batch group_id (pos n) q batches
        ≡ send_all q (number_batches group_id n batches)
  unfolding write_from send_all
  write_from-send_all group_id n q [] h = refl
  write_from-send_all group_id n q (batch ∷ rest) h = rw (
    entries_from-numbered group_id n batch (omega arith),
    write_from-send_all group_id (n + length batch)
        (send_entries send_batch q (numbered group_id n batch)).queue rest (omega arith),
  )

  -- For batches of fewer than 2^63 messages in all, the SQS writer sends the batches in turn,
  -- each as its entries; over all of them the messages stand in their order, are numbered from 0
  -- without a gap, and no two have the same deduplication id.
  pub write_numbers :
      (group_id : String) (q : S) (batches : List (List Bytes))
      → total batches < 2 ^ 63
      → let sent = number_batches group_id 0 batches in
        (write send_batch group_id q batches ≡ send_all q sent)
        × (gather (λ l. l) sent ≡ numbered group_id 0 (gather (λ l. l) batches))
        × IdsDiffer (gather (λ l. l) sent)
  unfolding write
  write_numbers group_id q batches h = (
    write_from-send_all group_id 0 q batches (omega arith),
    number_batches-flat group_id 0 batches,
    rw (number_batches-flat group_id 0 batches) (
        numbered-IdsDiffer group_id 0 (gather (λ l. l) batches)
          (omega (arith, length-gather batches))),
  )
