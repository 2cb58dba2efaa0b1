-- ===== src/Sink/Batch/Settle.antt =====
-- The goroutines of sqs.go and event_bridge.go once no more messages are put: `batch` and its ticker, and
-- the writer.
use nomad_firehose.Base.{
  true, ◌≡◌, false, refl, Bool, Bool-cases, inl, inr, List, [], ◌∷◌, ◌++◌, length, ◌==◌, arith,
}
use nomad_firehose.Go.Value.{Bytes}
use nomad_firehose.Sink.Start.{Started}
use nomad_firehose.Sink.Batch.{
  Batcher, Phase, selecting, sending, step, received, ticked, try_receive, try_tick, try_send,
  try_take, try_stop, receive, tick, send, take,
}
use nomad_firehose.Sink.Batch.Interface.{batch_sink, move}
use nomad_firehose.Sink.Interface.{Goes, still, further, Settles}
use nomad_firehose.Sink.Interface.Laws.{Goes-Goes}

module _ (started : Started) (closed : Bool) where
  -- A state, by its fields.
  abbrev at : List Bytes → List Bytes → Phase → List (List Bytes) → List (List Bytes) → Batcher
  at put_ch buffer phase batch_ch taken = record {
    put_ch = put_ch;
    buffer = buffer;
    phase = phase;
    batch_ch = batch_ch;
    taken = taken;
    closed = closed;
  }

  abbrev On : Batcher → Batcher → Type 0
  On = Goes (batch_sink started)

  -- The writer takes every batch that waits.
  takes_all :
      (put_ch buffer : List Bytes) (phase : Phase) (batch_ch taken : List (List Bytes))
      → (taken' : List (List Bytes)) × On
          (at put_ch buffer phase batch_ch taken)
          (at put_ch buffer phase [] taken')
  unfolding step try_take
  takes_all p l phase [] taken = (taken, still)
  takes_all p l phase (batch ∷ rest) taken =
      let (taken', g) = takes_all p l phase rest (taken ++ batch ∷ []) in
      (taken', Goes-Goes (batch_sink started) (further still (move take tt refl)) g)

  -- A buffer that is being sent comes to the writer.
  sends :
      (put_ch buffer : List Bytes) (taken : List (List Bytes))
      → On (at put_ch buffer sending [] taken) (at put_ch [] selecting [] (taken ++ buffer ∷ []))
  unfolding step try_take try_send
  sends p l taken = further (further still (move send tt refl)) (move take tt refl)

  -- A message comes from the channel into the buffer, and the full buffer to the writer.
  receives :
      (d : Bytes) (rest buffer : List Bytes) (taken : List (List Bytes))
      → (buffer' : List Bytes) × (taken' : List (List Bytes)) × On
          (at (d ∷ rest) buffer selecting [] taken)
          (at rest buffer' selecting [] taken')
  unfolding step try_receive received
  receives d rest l taken = elim (Bool-cases (length (l ++ d ∷ []) == 10)) [
    | inl full ↦ (
      [],
      (taken ++ (l ++ d ∷ []) ∷ []),
      Goes-Goes (batch_sink started) (further still (move receive tt (rw full refl)))
          (sends rest (l ++ d ∷ []) taken),
    )
    | inr more ↦ (l ++ d ∷ [], taken, further still (move receive tt (rw more refl)))
  ]

  -- The channel runs empty.
  receives_all :
      (put_ch buffer : List Bytes) (taken : List (List Bytes))
      → (buffer' : List Bytes) × (taken' : List (List Bytes)) × On
          (at put_ch buffer selecting [] taken)
          (at [] buffer' selecting [] taken')
  receives_all [] l taken = (l, taken, still)
  receives_all (d ∷ rest) l taken =
      let (l1, taken1, g) = receives d rest l taken in
      let (l2, taken2, g') = receives_all rest l1 taken1 in
      (l2, taken2, Goes-Goes (batch_sink started) g g')

  -- A tick sends what the buffer still has.
  ticks :
      (buffer : List Bytes) (taken : List (List Bytes))
      → (taken' : List (List Bytes)) × On
          (at [] buffer selecting [] taken)
          (at [] [] selecting [] taken')
  unfolding step try_tick ticked
  ticks [] taken = (taken, still)
  ticks (d ∷ l) taken = (
    taken ++ (d ∷ l) ∷ [],
    Goes-Goes (batch_sink started) (further still (move tick tt (ground arith)))
        (sends [] (d ∷ l) taken),
  )

  -- From the `select`, with no batch waiting, everything comes to the writer.
  selects :
      (put_ch buffer : List Bytes) (taken : List (List Bytes))
      → (taken' : List (List Bytes)) × On
          (at put_ch buffer selecting [] taken)
          (at [] [] selecting [] taken')
  selects p l taken =
      let (l', taken1, g) = receives_all p l taken in
      let (taken2, g') = ticks l' taken1 in (taken2, Goes-Goes (batch_sink started) g g')

  empties :
      (put_ch buffer : List Bytes) (phase : Phase) (batch_ch taken : List (List Bytes))
      → (taken' : List (List Bytes)) × On
          (at put_ch buffer phase batch_ch taken)
          (at [] [] selecting [] taken')
  empties p l selecting bs taken =
      let (taken1, g) = takes_all p l selecting bs taken in
      let (taken2, g') = selects p l taken1 in (taken2, Goes-Goes (batch_sink started) g g')
  empties p l sending bs taken =
      let (taken1, g) = takes_all p l sending bs taken in
      let (taken2, g') = selects p [] (taken1 ++ l ∷ []) in
      (
        taken2,
        Goes-Goes (batch_sink started) g (Goes-Goes (batch_sink started) (sends p l taken1) g'),
      )

pub batch-Settles :
    (started : Started) (b : Batcher) → b.closed ≡ false → Settles (batch_sink started) b
unfolding try_stop
batch-Settles started b o =
    let (taken, g) = empties started b.closed b.put_ch b.buffer b.phase b.batch_ch b.taken in
    (
      at started b.closed [] [] selecting [] taken,
      g,
      refl,
      (
        record b {
          put_ch = [];
          buffer = [];
          phase = selecting;
          batch_ch = [];
          taken = taken;
          closed = true;
        },
        rw o refl,
      ),
    )
