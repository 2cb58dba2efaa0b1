-- ===== src/Sink/Batch/Laws.antt =====
-- Bounds and whereabouts of the messages of sink/sqs.go and sink/event_bridge.go.
use nomad_firehose.Base.{
  ◌≤◌, ◌<◌, ◌≡◌, refl, sym, ap, subst, ◌∙◌, List, [], ◌∷◌, ◌++◌, length, length-append,
  append_assoc, append-nil, arith, gather, gather-append, All, All-append, some,
}
use nomad_firehose.Go.Value.{Bytes}
use nomad_firehose.Sink.Batch.{
  Batcher, Event, put, receive, tick, send, take, stop, put_of, selecting, sending, step, Reach,
  begin, go_on, put_capacity, batch_capacity, received, Phase, try_receive, try_take, try_send,
  try_put, try_stop, passed,
}

abbrev pub IsBatch : List Bytes → Type 0
IsBatch l = (0 < length l) × (length l ≤ 10)

pub record InBounds (b : Batcher) : Type 0 where
  pub channel : length b.put_ch ≤ put_capacity
  pub batches : length b.batch_ch ≤ batch_capacity
  pub gathering : b.phase ≡ selecting → length b.buffer < 10
  pub full : b.phase ≡ sending → IsBatch b.buffer
  pub waiting : All IsBatch b.batch_ch
  pub passed : All IsBatch b.taken

-- The case that a message was received: where it came from, and what it leaves.
pub receive_inv :
    (b b' : Batcher) (phase : Phase) (l : List Bytes)
    → try_receive phase l b ≡ some b'
    → (phase ≡ selecting)
      × ((d : Bytes) × (rest : List Bytes) × (l ≡ d ∷ rest) × (b' ≡ received b d rest))
unfolding try_receive
receive_inv b b' selecting (d ∷ rest) h = (refl, (d, rest, refl, ground arith))
receive_inv b b' selecting [] h = cc
receive_inv b b' sending l h = cc

pub take_inv :
    (b b' : Batcher) (l : List (List Bytes))
    → try_take l b ≡ some b'
    → (batch : List Bytes) × (rest : List (List Bytes)) × (l ≡ batch ∷ rest)
      × (b' ≡ record b { batch_ch = rest; taken = b.taken ++ batch ∷ [] })
unfolding try_take
take_inv b b' [] h = cc
take_inv b b' (batch ∷ rest) h = (batch, rest, refl, ground arith)

pub send_inv :
    (b b' : Batcher)
    → try_send b.phase b ≡ some b'
    → (b.phase ≡ sending)
      × (length b.batch_ch < batch_capacity)
      × (b' ≡ record b { batch_ch = b.batch_ch ++ b.buffer ∷ []; buffer = []; phase = selecting })
unfolding try_send
send_inv b b' h = ground arith

received-InBounds :
    (b : Batcher) (d : Bytes) (rest : List Bytes)
    → InBounds b
    → b.phase ≡ selecting
    → b.put_ch ≡ d ∷ rest
    → InBounds (received b d rest)
unfolding received
received-InBounds b d rest v p e = record {
  channel = omega (arith, ap length e, v.channel);
  batches = v.batches;
  gathering = λ q. ground (arith, length-append b.buffer (d ∷ []), v.gathering p);
  full = λ q. ground (arith, length-append b.buffer (d ∷ []), v.gathering p);
  waiting = v.waiting;
  passed = v.passed;
}

sent-InBounds :
    (b : Batcher)
    → InBounds b
    → b.phase ≡ sending
    → length b.batch_ch < batch_capacity
    → InBounds (record b { batch_ch = b.batch_ch ++ b.buffer ∷ []; buffer = []; phase = selecting })
sent-InBounds b v p lt = record {
  channel = v.channel;
  batches = omega (arith, length-append b.batch_ch (b.buffer ∷ []));
  gathering = λ q. omega arith;
  full = λ q. cc;
  waiting = All-append IsBatch b.batch_ch (b.buffer ∷ []) v.waiting (v.full p, tt);
  passed = v.passed;
}

taken-InBounds :
    (b : Batcher) (batch : List Bytes) (rest : List (List Bytes))
    → InBounds b
    → b.batch_ch ≡ batch ∷ rest
    → InBounds (record b { batch_ch = rest; taken = b.taken ++ batch ∷ [] })
taken-InBounds b batch rest v e = record {
  channel = v.channel;
  batches = omega (arith, ap length e, v.batches);
  gathering = v.gathering;
  full = v.full;
  waiting = (subst (All IsBatch) e v.waiting).1;
  passed =
      All-append IsBatch b.taken (batch ∷ []) v.passed ((subst (All IsBatch) e v.waiting).0, tt);
}

step-InBounds : (b b' : Batcher) (e : Event) → InBounds b → step b e ≡ some b' → InBounds b'
unfolding step
step-InBounds b b' (put d) v h = ground (arith, length-append b.put_ch (d ∷ []))
step-InBounds b b' receive v h =
    let (p, (d, rest, e, q)) = receive_inv b b' b.phase b.put_ch h in
    rw q (received-InBounds b d rest v p e)
step-InBounds b b' tick v h = ground arith
step-InBounds b b' send v h = let (p, lt, q) = send_inv b b' h in rw q (sent-InBounds b v p lt)
step-InBounds b b' take v h =
    let (batch, rest, e, q) = take_inv b b' b.batch_ch h in rw q (taken-InBounds b batch rest v e)
step-InBounds b b' stop v h = ground arith

-- All that was accepted, from the oldest.
abbrev pub whereabouts : Batcher → List Bytes
whereabouts b = gather (λ l. l) b.taken ++ (gather (λ l. l) b.batch_ch ++ (b.buffer ++ b.put_ch))

pub put_inv :
    (b b' : Batcher) (d : Bytes)
    → try_put b d ≡ some b'
    → b' ≡ record b { put_ch = b.put_ch ++ d ∷ [] }
unfolding try_put
put_inv b b' d h = ground arith

taken_same :
    (b : Batcher) (batch : List Bytes) (rest : List (List Bytes))
    → b.batch_ch ≡ batch ∷ rest
    → whereabouts b ≡ whereabouts (record b { batch_ch = rest; taken = b.taken ++ batch ∷ [] })
taken_same b batch rest e = rw (
  e,
  gather-append (λ l. l) b.taken (batch ∷ []),
  append-nil batch,
  append_assoc (gather (λ l. l) b.taken) batch,
  append_assoc batch (gather (λ l. l) rest),
)

-- An event moves messages on in their order, and a put adds one at the end.
step_same :
    (b b' : Batcher) (e : Event) → step b e ≡ some b' → whereabouts b ++ put_of e ≡ whereabouts b'
unfolding step
step_same b b' (put d) h = rw (put_inv b b' d h) (simp append_assoc)
step_same b b' receive h =
    let (p, (d, rest, e, q)) = receive_inv b b' b.phase b.put_ch h in
    rw (append-nil (whereabouts b), q, e, append_assoc b.buffer (d ∷ []) rest)
step_same b b' tick h = rw (append-nil (whereabouts b)) (ground arith)
step_same b b' send h =
    let (p, lt, q) = send_inv b b' h in
    rw (
      append-nil (whereabouts b),
      q,
      gather-append (λ l. l) b.batch_ch (b.buffer ∷ []),
      append-nil b.buffer,
      append_assoc (gather (λ l. l) b.batch_ch) b.buffer b.put_ch,
    )
step_same b b' take h =
    let (batch, rest, e, q) = take_inv b b' b.batch_ch h in
    rw (append-nil (whereabouts b), q) (taken_same b batch rest e)
step_same b b' stop h = rw (append-nil (whereabouts b)) (ground arith)

-- In every state that the batching sinks reach, the batches that wait and those that the writer
-- took have one to ten messages, the buffer has fewer than ten while the goroutine selects and
-- one to ten while it sends, and the channels hold at most 1000 messages and 100 batches.
pub batches-InBounds : {ds : List Bytes} {b : Batcher} → Reach ds b → InBounds b
batches-InBounds begin = ground arith
batches-InBounds (go_on {b = b} {b' = b'} e r h) = step-InBounds b b' e (batches-InBounds r) h

-- In every state that the batching sinks reach, the batches that the writer took, those that
-- wait, the buffer and the channel hold together exactly the messages that `Put` accepted, in
-- their order.
pub batches_keep_order : {ds : List Bytes} {b : Batcher} → Reach ds b → ds ≡ whereabouts b
batches_keep_order begin = refl
batches_keep_order (go_on {b = b} {b' = b'} e r h) =
    ap (λ l. l ++ put_of e) (batches_keep_order r) ∙ step_same b b' e h

stop_inv :
    (b b' : Batcher) (l : List Bytes)
    → b.put_ch ≡ l
    → passed (try_stop b) ≡ some b'
    → b'.put_ch ≡ []
unfolding try_stop
stop_inv b b' [] e h = ground arith
stop_inv b b' (d ∷ rest) e h = absurd (ground (arith, ap length e))

-- When the loop of `Stop` of a batching sink passes in a state that the sink reaches, the batches
-- that the writer took, those that still wait and the buffer hold together exactly the accepted
-- messages, in their order: `Stop` does not wait for the last two.
pub stop_leaves :
    {ds : List Bytes} (b b' : Batcher)
    → Reach ds b
    → step b stop ≡ some b'
    → ds ≡ gather (λ l. l) b'.taken ++ (gather (λ l. l) b'.batch_ch ++ b'.buffer)
unfolding step
stop_leaves b b' r h =
    batches_keep_order r
    ∙ sym (append-nil (whereabouts b))
    ∙ step_same b b' stop h
    ∙ ap (λ l. gather (λ l. l) b'.taken ++ (gather (λ l. l) b'.batch_ch ++ l))
        (ap (◌++◌ b'.buffer) (stop_inv b b' b.put_ch refl h) ∙ append-nil b'.buffer)
