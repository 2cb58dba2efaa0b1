-- ===== src/Sink/Queue/Laws.antt =====
-- Bounds and whereabouts of the messages of the sinks that send one message at a time.
use mathlib.Core.List.{perm_middle}
use mathlib.Core.List.Perm
use nomad_firehose.Base.{
  ℕ, ◌≤◌, ◌≡◌, refl, ap, ◌∙◌, subst, List, [], ◌∷◌, ◌++◌, length, length-append, append_assoc,
  append-nil, Perm, arith,
}
use nomad_firehose.Go.Value.{Bytes}
use nomad_firehose.Sink.Queue.{Queue, capacity, Step, take, write, stop, Reach, begin, put, go_on}

pub record InBounds (workers : ℕ) (q : Queue) : Type 0 where
  pub channel : length q.put_ch ≤ capacity
  pub hands : length q.held ≤ workers

Step-InBounds :
    {workers : ℕ} {q q' : Queue} → Step workers q q' → InBounds workers q → InBounds workers q'
Step-InBounds {workers} {q} (take d rest e lt) b = record {
  channel = omega (arith, ap length e, b.channel);
  hands = omega (arith, length-append q.held (d ∷ []));
}
Step-InBounds {workers} {q} (write xs ys d e) b = record {
  channel = b.channel;
  hands = omega (arith, ap length e, length-append xs (d ∷ ys), length-append xs ys, b.hands);
}
Step-InBounds (stop e c) b = record { channel = b.channel; hands = b.hands }

-- The channel holds at most 1000 messages, and each writer at most one.
Reach-InBounds :
    {workers : ℕ} {ds : List Bytes} {q : Queue} → Reach workers ds q → InBounds workers q
Reach-InBounds begin = record { channel = omega arith; hands = omega arith }
Reach-InBounds (put {q = q} d r lt) = record {
  channel = omega (arith, length-append q.put_ch (d ∷ []));
  hands = (Reach-InBounds r).hands;
}
Reach-InBounds (go_on r s) = Step-InBounds s (Reach-InBounds r)

-- Where the messages are.
abbrev pub whereabouts : Queue → List Bytes
whereabouts q = q.attempted ++ (q.held ++ q.put_ch)

-- A take moves a message on, and changes no order.
take_same :
    (q : Queue) (d : Bytes) (rest : List Bytes)
    → q.put_ch ≡ d ∷ rest
    → whereabouts q ≡ q.attempted ++ ((q.held ++ d ∷ []) ++ rest)
take_same q d rest e = rw (e, append_assoc q.held (d ∷ []) rest)

put_same :
    (q : Queue) (d : Bytes)
    → whereabouts q ++ d ∷ [] ≡ q.attempted ++ (q.held ++ (q.put_ch ++ d ∷ []))
put_same q d =
    rw (
      append_assoc q.attempted (q.held ++ q.put_ch) (d ∷ []),
      append_assoc q.held q.put_ch (d ∷ []),
    )

Step-perm : {workers : ℕ} {q q' : Queue} → Step workers q q' → Perm (whereabouts q) (whereabouts q')
Step-perm {workers} {q} (take d rest e lt) = rw (take_same q d rest e) Perm.rfl
Step-perm {workers} {q} (write xs ys d e) =
    rw (e, append_assoc q.attempted (d ∷ []) ((xs ++ ys) ++ q.put_ch))
      (Perm.append_left q.attempted (Perm.append_right q.put_ch (perm_middle xs ys)))
Step-perm (stop e c) = Perm.rfl

-- With any number of writers, in every state that the sink reaches, the messages that were
-- attempted, those in the writers' hands and those in the channel are a rearrangement of the
-- messages that `Put` accepted: none is lost and none is made up.
pub messages_kept :
    {workers : ℕ} {ds : List Bytes} {q : Queue} → Reach workers ds q → Perm ds (whereabouts q)
messages_kept begin = Perm.nil
messages_kept (put {q = q} d r lt) =
    rw (← put_same q d) (Perm.append_right (d ∷ []) (messages_kept r))
messages_kept (go_on r s) = Perm.trans (messages_kept r) (Step-perm s)

-- A list of at most one item that holds `d` holds nothing else.
alone : (xs ys : List Bytes) (d : Bytes) → length (xs ++ d ∷ ys) ≤ 1 → (xs ≡ []) × (ys ≡ [])
alone [] [] d h = (refl, refl)
alone [] (y ∷ ys) d h = absurd (omega arith)
alone (x ∷ xs) ys d h = absurd (omega (arith, length-append xs (d ∷ ys)))

Step_one-same : {q q' : Queue} → Step 1 q q' → length q.held ≤ 1 → whereabouts q ≡ whereabouts q'
Step_one-same {q} (take d rest e lt) h = take_same q d rest e
Step_one-same {q} (write xs ys d e) h =
    let (ex, ey) = alone xs ys d (omega (arith, ap length e)) in
    rw (e, ex, ey, append_assoc q.attempted (d ∷ []) q.put_ch)
Step_one-same (stop e c) h = refl

-- With one writer, in every state that the sink reaches, the messages that were attempted, the
-- one in the writer's hand and those in the channel stand together in the very order in which
-- they were put.
pub one_writer-fifo : {ds : List Bytes} {q : Queue} → Reach 1 ds q → ds ≡ whereabouts q
one_writer-fifo begin = refl
one_writer-fifo (put {q = q} d r lt) = rw (← put_same q d, ← one_writer-fifo r)
one_writer-fifo (go_on r s) = one_writer-fifo r ∙ Step_one-same s (Reach-InBounds r).hands

-- When the loop of `Stop` finds the channel empty in a state that the sink reaches, all accepted
-- messages were attempted, but for those that writers still hold, of which there are at most as
-- many as writers.
stop_drained :
    {workers : ℕ} {ds : List Bytes} {q : Queue}
    → Reach workers ds q
    → q.put_ch ≡ []
    → Perm ds (q.attempted ++ q.held) × (length q.held ≤ workers)
stop_drained {ds = ds} {q = q} r e = (
  subst (λ l. Perm ds (q.attempted ++ l)) (rw e (append-nil q.held)) (messages_kept r),
  (Reach-InBounds r).hands,
)

-- Without a writer, in every state that the sink reaches, nothing was attempted, nothing is in a
-- writer's hands, and all accepted messages wait in the channel.
pub no_writer_stuck :
    {ds : List Bytes} {q : Queue}
    → Reach 0 ds q
    → (q.held ≡ []) × (ds ≡ q.put_ch) × (q.attempted ≡ [])
no_writer_stuck begin = (refl, refl, refl)
no_writer_stuck (put {q = q} d r lt) = let (h, e, a) = no_writer_stuck r in (h, rw e, a)
no_writer_stuck (go_on r (take d rest e lt)) = absurd (omega arith)
no_writer_stuck (go_on r (write xs ys d e)) =
    absurd (omega (arith, ap length e, length-append xs (d ∷ ys), (Reach-InBounds r).hands))
no_writer_stuck (go_on r (stop e c)) = no_writer_stuck r
