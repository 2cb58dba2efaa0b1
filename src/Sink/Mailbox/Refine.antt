-- ===== src/Sink/Mailbox/Refine.antt =====
-- The queue of the sinks with one message at a time, and the batches of the other two, against `Mailbox`.
use mathlib.Core.List.{perm_middle}
use mathlib.Core.List.Perm
use nomad_firehose.Base.{
  ℕ, ◌<◌, length, gather, gather-append, some, arith, ◌≡◌, refl, ap, subst, ◌∙◌, List, [], ◌∷◌,
  ◌++◌, append_assoc, append-nil,
}
use nomad_firehose.Go.Value.{Bytes}
use nomad_firehose.Sink.Queue
use nomad_firehose.Sink.Batch
use nomad_firehose.Sink.Batch.Laws.{put_inv, receive_inv, send_inv, take_inv}
use nomad_firehose.Sink.Mailbox.Laws.{same_bag, bag-end}
use nomad_firehose.Sink.Mailbox.{bag, mailbox, Mailbox, accept, Moves, here, finish}

-- What writers hold has not been attempted yet.
abbrev pub queue_view : Queue.Queue → Mailbox
queue_view q = mailbox (bag (q.held ++ q.put_ch)) (bag q.attempted)

-- What may happen to a queue, with the messages that it accepts.
pub data Call (workers : ℕ) (q : Queue.Queue) : List Bytes → Queue.Queue → Type 0 where
  put :
      (d : Bytes)
      → length q.put_ch < Queue.capacity
      → Call workers q (d ∷ []) (record q { put_ch = q.put_ch ++ d ∷ [] })
  work : {q' : Queue.Queue} → Queue.Step workers q q' → Call workers q [] q'

Moves-same : {m : Mailbox} (n n' : Mailbox) → n ≡ n' → Moves m n → Moves m n'
Moves-same n n' e r = subst (Moves _) e r

stays : (m n : Mailbox) → m ≡ n → Moves m n
stays m n e = Moves-same m n e here

-- A put or a step of any goroutine of the sinks that send one message at a time is, in a mailbox
-- whose messages have no order, an acceptance of the message that was put, and then no more than
-- moves of single pending messages to the finished ones.
pub queue_refines :
    {workers : ℕ} {ds : List Bytes} {q q' : Queue.Queue}
    → Call workers q ds q'
    → Moves (accept ds (queue_view q)) (queue_view q')
queue_refines {q = q} (put d lt) = stays _ _ (
    ap (λ p. mailbox p (bag q.attempted))
      (bag-end (q.held ++ q.put_ch) d ∙ ap bag (append_assoc q.held q.put_ch (d ∷ []))))
queue_refines {q = q} (work (Queue.take d rest e lt)) =
    stays _ _
      (ap (λ l. mailbox (bag l) (bag q.attempted)) (rw (e, append_assoc q.held (d ∷ []) rest) refl))
queue_refines {q = q} (work (Queue.write xs ys d e)) =
    Moves-same _ _ (ap (λ f. mailbox (bag ((xs ++ ys) ++ q.put_ch)) f) (bag-end q.attempted d)) (
      finish d (bag ((xs ++ ys) ++ q.put_ch)) here
        (same_bag (rw e (Perm.append_right q.put_ch (perm_middle xs ys)))))
queue_refines (work (Queue.stop e c)) = here

-- What the writer has not taken yet is pending.
abbrev pub batch_pending : Batch.Batcher → List Bytes
batch_pending b = gather (λ l. l) b.batch_ch ++ (b.buffer ++ b.put_ch)

abbrev pub batch_view : Batch.Batcher → Mailbox
batch_view b = mailbox (bag (batch_pending b)) (bag (gather (λ l. l) b.taken))

finish_all :
    {m : Mailbox} (l left done : List Bytes)
    → Moves m (mailbox (bag (l ++ left)) (bag done))
    → Moves m (mailbox (bag left) (bag (done ++ l)))
finish_all [] left done r = rw (append-nil done) r
finish_all (d ∷ l) left done r = rw (← append_assoc done (d ∷ []) l) (
    finish_all l left (done ++ d ∷ []) (
      Moves-same _ _ (ap (λ f. mailbox (bag (l ++ left)) f) (bag-end done d))
        (finish d (bag (l ++ left)) r refl)))

-- Each event of the batching sinks that is possible in a state is, in the same mailbox without an
-- order, an acceptance of the message that was put, and then no more than moves of single pending
-- messages to the finished ones: batching, ticks and channels are not seen from outside.
pub batch_refines :
    (b b' : Batch.Batcher) (e : Batch.Event)
    → Batch.step b e ≡ some b'
    → Moves (accept (Batch.put_of e) (batch_view b)) (batch_view b')
unfolding Batch.step
batch_refines b b' (Batch.put d) h = rw (put_inv b b' d h) (
    stays _ _ (
      ap (λ p. mailbox p (bag (gather (λ l. l) b.taken)))
        (bag-end (batch_pending b) d ∙ ap bag (simp append_assoc))))
batch_refines b b' Batch.receive h =
    let (p, (d, rest, e, q)) = receive_inv b b' b.phase b.put_ch h in
    rw q (
      stays _ _ (
        ap (λ l. mailbox (bag (gather (λ l. l) b.batch_ch ++ l)) (bag (gather (λ l. l) b.taken)))
          (rw (e, append_assoc b.buffer (d ∷ []) rest) refl)))
batch_refines b b' Batch.tick h = stays _ _ (ground arith)
batch_refines b b' Batch.send h =
    let (p, lt, q) = send_inv b b' h in
    rw q (
      stays _ _ (
        ap (λ l. mailbox (bag l) (bag (gather (λ l. l) b.taken)))
          (rw
            (
              gather-append (λ l. l) b.batch_ch (b.buffer ∷ []),
              append-nil b.buffer,
              append_assoc (gather (λ l. l) b.batch_ch) b.buffer b.put_ch,
            )
            refl)))
batch_refines b b' Batch.take h =
    let (batch, rest, e, q) = take_inv b b' b.batch_ch h in
    rw (q, gather-append (λ l. l) b.taken (batch ∷ []), append-nil batch)
      (finish_all batch (gather (λ l. l) rest ++ (b.buffer ++ b.put_ch)) (gather (λ l. l) b.taken) (
        stays _ _ (
          ap (λ l. mailbox (bag l) (bag (gather (λ l. l) b.taken)))
            (rw (e, append_assoc batch (gather (λ l. l) rest) (b.buffer ++ b.put_ch)) refl))))
batch_refines b b' Batch.stop h = stays _ _ (ground arith)
