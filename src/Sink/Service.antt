-- ===== src/Sink/Service.antt =====
-- The sinks that send one message at a time, as implementations of the interface: they differ in what
-- Start has made, in the writers that come to their loop, in the body of that loop, and in the end of Stop.
pub mod Settle
pub mod Stuck
use mathlib.Core.Option
use nomad_firehose.Base.{ℕ, ◌≡◌, refl, ap, List, [], ◌∷◌, ◌++◌, Option, some, arith, length, ◌<◌}
use nomad_firehose.Go.Value.{Bytes}
use nomad_firehose.Sink.Start.{Started, passes}
use nomad_firehose.Sink.Queue
use nomad_firehose.Sink.Queue.Drain.{IsWork}
use nomad_firehose.Sink.Mailbox.{Mailbox, accept, Moves}
use nomad_firehose.Sink.Mailbox.Refine.{queue_view, queue_refines, put, work}
use nomad_firehose.Sink.Run.{Sink, try_put, try_stop, effect}
use nomad_firehose.Sink.Interface.{SinkInterface}

module _ {W : Type 0} (started : Started) (workers : ℕ) (body : W → Bytes → W) (close : W → W)
    (connected : W) where
  abbrev pub view : Sink W → Mailbox
  view s = queue_view s.queue

  -- A step of a writer, with its effect on the service.
  pub data Step (s : Sink W) : Sink W → Type 0 where
    move :
        {q : Queue.Queue} (st : Queue.Step workers s.queue q)
        → IsWork st
        → Step s (record { queue = q; wire = effect body close workers st s.wire })

  pub put_inv :
      (s s' : Sink W) (d : Bytes)
      → try_put s d ≡ some s'
      → (length s.queue.put_ch < Queue.capacity)
        × (s' ≡ record s { queue = record s.queue { put_ch = s.queue.put_ch ++ d ∷ [] } })
  unfolding try_put Queue.try_put
  put_inv s s' d e = ground arith

  pub put-Moves :
      (s s' : Sink W) (d : Bytes)
      → try_put s d ≡ some s'
      → Moves (accept (d ∷ []) (view s)) (view s')
  put-Moves s s' d e =
      let (room, same) = put_inv s s' d e in
      rw same (queue_refines {workers = workers} {q = s.queue} (put d room))

  pub stop-same : (s s' : Sink W) → try_stop close s ≡ passes s' → view s' ≡ view s
  unfolding try_stop Queue.try_stop
  stop-same s s' e = ground arith

  pub Step-Moves : {s s' : Sink W} → Step s s' → Moves (view s) (view s')
  Step-Moves (move st w) = queue_refines (work st)

  abbrev pub service_sink : SinkInterface
  service_sink = record {
    State = Sink W;
    empty = record { queue = Queue.empty; wire = connected };
    started = started;
    put = try_put;
    stop = try_stop close;
    stopped = λ s. s.queue.closed;
    Step = Step;
    view = view;
    view-empty = refl;
    put-Moves = put-Moves;
    stop-same = stop-same;
    Step-Moves = Step-Moves;
  }
