-- ===== src/Sink/Batch/Requests.antt =====
-- The requests that the writers of sink/sqs.go and sink/event_bridge.go make for the batches that they take.
use nomad_firehose.Base.{
  suc, ◌^◌, ◌<◌, ◌≤◌, ◌≡◌, refl, sym, ap, ◌∙◌, List, [], ◌∷◌, map, length, String, arith, Option,
  gather, All, All-append, append-nil, Bool-cases, inl, inr,
}
use mathlib.Core.List.{map-append}
use nomad_firehose.Base.Int.{ℤ}
use nomad_firehose.Go.Value.{Bytes, succ_int64}
use nomad_firehose.Sink.Batch.{Batcher, Reach}
use nomad_firehose.Sink.Batch.Laws.{IsBatch, batches-InBounds, batches_keep_order}
use nomad_firehose.Sink.Sqs
use nomad_firehose.Sink.Sqs.Ids.{numbered, number_batches, IdsDiffer, length-gather}
use nomad_firehose.Sink.Sqs.Calls.{send_all, write_numbers}
use nomad_firehose.Sink.EventBridge

-- What both services take in one request.
abbrev pub Fits : {A : Type 0} → List A → Type 0
Fits es = (0 < length es) × (length es ≤ 10)

-- Nothing waits.
drained_same :
    {ds : List Bytes} {b : Batcher}
    → Reach ds b
    → b.batch_ch ≡ []
    → b.buffer ≡ []
    → b.put_ch ≡ []
    → gather (λ l. l) b.taken ≡ ds
drained_same {b = b} r e f g =
    sym (batches_keep_order r ∙ rw (e, f, g) (append-nil (gather (λ l. l) b.taken)))

length-entries_from :
    (group_id : String) (id : ℤ) (batch : List Bytes)
    → length (Sqs.entries_from group_id id batch).0 ≡ length batch
unfolding Sqs.entries_from
length-entries_from group_id id [] = refl
length-entries_from group_id id (body ∷ rest) =
    ap suc (length-entries_from group_id (succ_int64 id) rest)

module _ {S : Type 0} (send_batch : S → List Sqs.Entry → S × Option Bytes) where
  abbrev CallsFit : List (List Sqs.Entry × Option Bytes) → Type 0
  CallsFit = All (λ c. Fits c.0)

  retry-CallsFit : (q : S) (es : List Sqs.Entry) → CallsFit (Sqs.retry send_batch q es).calls
  unfolding Sqs.retry
  retry-CallsFit q [] = tt
  retry-CallsFit q (e ∷ es) =
      ((omega arith, omega arith), retry-CallsFit (send_batch q (e ∷ [])).0 es)

  send_entries-CallsFit :
      (q : S) (es : List Sqs.Entry) → Fits es → CallsFit (Sqs.send_entries send_batch q es).calls
  unfolding Sqs.send_entries
  send_entries-CallsFit q es h = elim (Bool-cases (Sqs.is_too_long (send_batch q es).1)) [
    | inl long ↦ rw long (h, retry-CallsFit (send_batch q es).0 es)
    | inr short ↦ rw short (h, tt)
  ]

  write_from-CallsFit :
      (group_id : String) (id : ℤ) (q : S) (batches : List (List Bytes))
      → All IsBatch batches
      → CallsFit (Sqs.write_from send_batch group_id id q batches).calls
  unfolding Sqs.write_from
  write_from-CallsFit group_id id q [] h = tt
  write_from-CallsFit group_id id q (batch ∷ rest) h =
      let (es, last) = Sqs.entries_from group_id id batch in
      let fits : Fits es = rw (length-entries_from group_id id batch) h.0 in
      let first = Sqs.send_entries send_batch q es in
      All-append (λ c. Fits c.0) first.calls _ (send_entries-CallsFit q es fits)
        (write_from-CallsFit group_id last first.queue rest h.1)

  -- When the batching sink of SQS has reached a state in which nothing waits and has accepted
  -- fewer than 2^63 messages, the writer has sent the batches in turn, each as its entries; over
  -- all of them the accepted messages stand in their order, numbered from 0 without a gap, no two
  -- with the same deduplication id; and every request, the repeated ones too, has one to ten
  -- entries.
  pub sqs_sends_all :
      (group_id : String) (q : S) (ds : List Bytes) (b : Batcher)
      → Reach ds b
      → b.batch_ch ≡ []
      → b.buffer ≡ []
      → b.put_ch ≡ []
      → length ds < 2 ^ 63
      → let sent = number_batches group_id 0 b.taken in
        (Sqs.write send_batch group_id q b.taken ≡ send_all send_batch q sent)
        × (gather (λ l. l) sent ≡ numbered group_id 0 ds)
        × IdsDiffer (gather (λ l. l) sent)
        × All (λ c. Fits c.0) (Sqs.write send_batch group_id q b.taken).calls
  unfolding Sqs.write
  sqs_sends_all group_id q ds b r e f g small =
      let same = drained_same r e f g in
      let (written, flat, differ) =
        write_numbers send_batch group_id q b.taken
          (omega (arith, length-gather b.taken, ap length same)) in
      (
        written,
        flat ∙ ap (numbered group_id 0) same,
        differ,
        write_from-CallsFit group_id _ q b.taken (batches-InBounds r).passed,
      )

module _ {S : Type 0} (put_events : S → List EventBridge.Entry → S × Option Bytes)
    (s : EventBridge.EbSink) where
  event_calls :
      (bus : S) (batches : List (List Bytes))
      → map (λ c. c.0) (EventBridge.write put_events s bus batches).calls
        ≡ map (map (EventBridge.entry s)) batches
  unfolding EventBridge.write
  event_calls bus [] = refl
  event_calls bus (batch ∷ rest) =
      ap (◌∷◌ (map (EventBridge.entry s) batch))
        (event_calls (put_events bus (map (EventBridge.entry s) batch)).0 rest)

  gather-map :
      (batches : List (List Bytes))
      → gather (λ l. l) (map (map (EventBridge.entry s)) batches)
        ≡ map (EventBridge.entry s) (gather (λ l. l) batches)
  gather-map [] = refl
  gather-map (batch ∷ rest) = rw (map-append, gather-map rest)

  length-map : (batch : List Bytes) → length (map (EventBridge.entry s) batch) ≡ length batch
  length-map [] = refl
  length-map (d ∷ ds) = ap suc (length-map ds)

  batches-Fits :
      (batches : List (List Bytes))
      → All IsBatch batches
      → All Fits (map (map (EventBridge.entry s)) batches)
  batches-Fits [] h = tt
  batches-Fits (batch ∷ rest) h = (rw (length-map batch) h.0, batches-Fits rest h.1)

  -- When the batching sink of EventBridge has reached a state in which nothing waits, the
  -- requests of the writer hold together exactly the events of the accepted messages, in their
  -- order, and each has one to ten events, whatever the bus answered.
  pub event_bridge_sends_all :
      (bus : S) (ds : List Bytes) (b : Batcher)
      → Reach ds b
      → b.batch_ch ≡ []
      → b.buffer ≡ []
      → b.put_ch ≡ []
      → let requests = map (λ c. c.0) (EventBridge.write put_events s bus b.taken).calls in
        (gather (λ l. l) requests ≡ map (EventBridge.entry s) ds) × All Fits requests
  event_bridge_sends_all bus ds b r e f g = rw (event_calls bus b.taken) (
    gather-map b.taken ∙ ap (map (EventBridge.entry s)) (drained_same r e f g),
    batches-Fits b.taken (batches-InBounds r).passed,
  )
