-- ===== src/Sink/Batch/Interface.antt =====
-- The batching sinks as implementations of the interface: they differ in their writer alone, which has the
-- batches that were taken.
use nomad_firehose.Base.{◌≡◌, refl, [], ◌∷◌, some, arith}
use nomad_firehose.Go.Value.{Bytes}
use nomad_firehose.Sink.Start.{Started, passes}
use nomad_firehose.Sink.Batch.{Batcher, Event, put_of, empty, step, try_put, try_stop}
use nomad_firehose.Sink.Batch
use nomad_firehose.Sink.Mailbox.{accept, Moves}
use nomad_firehose.Sink.Mailbox.Refine.{batch_view, batch_refines}
use nomad_firehose.Sink.Interface.{SinkInterface}

-- Is the event one of the goroutine that makes batches, its clock, or the writer?
abbrev pub IsWork : Event → Type 0
IsWork (Batch.put _) = ⊥
IsWork Batch.stop = ⊥
IsWork _ = Unit

pub data Step (b : Batcher) : Batcher → Type 0 where
  move : {b' : Batcher} (e : Event) → IsWork e → step b e ≡ some b' → Step b b'

pub put-Moves :
    (b b' : Batcher) (d : Bytes)
    → try_put b d ≡ some b'
    → Moves (accept (d ∷ []) (batch_view b)) (batch_view b')
unfolding step
put-Moves b b' d h = batch_refines b b' (Batch.put d) h

pub stop-same : (b b' : Batcher) → try_stop b ≡ passes b' → batch_view b' ≡ batch_view b
unfolding try_stop
stop-same b b' h = ground arith

pub Step-Moves : {b b' : Batcher} → Step b b' → Moves (batch_view b) (batch_view b')
Step-Moves {b} {b'} (move (Batch.put d) p h) = absurd p
Step-Moves {b} {b'} (move Batch.receive p h) = batch_refines b b' Batch.receive h
Step-Moves {b} {b'} (move Batch.tick p h) = batch_refines b b' Batch.tick h
Step-Moves {b} {b'} (move Batch.send p h) = batch_refines b b' Batch.send h
Step-Moves {b} {b'} (move Batch.take p h) = batch_refines b b' Batch.take h
Step-Moves {b} {b'} (move Batch.stop p h) = absurd p

abbrev pub batch_sink : Started → SinkInterface
batch_sink started = record {
  State = Batcher;
  empty = empty;
  started = started;
  put = try_put;
  stop = try_stop;
  stopped = λ b. b.closed;
  Step = Step;
  view = batch_view;
  view-empty = refl;
  put-Moves = put-Moves;
  stop-same = stop-same;
  Step-Moves = Step-Moves;
}
