-- ===== src/Sink/Run/Laws.antt =====
-- A sink as a whole against its queue, and against a plain loop.
use mathlib.Core.List.{foldl-append}
use nomad_firehose.Base.{
  ℕ, ◌≡◌, refl, sym, ap, subst, false, ◌∙◌, Perm, List, [], ◌∷◌, foldl, append-nil,
}
use nomad_firehose.Go.Value.{Bytes}
use nomad_firehose.Sink.Queue
use nomad_firehose.Sink.Queue.{Queue, Step, take, write, stop, Reach}
use nomad_firehose.Sink.Queue.Laws.{whereabouts, messages_kept, one_writer-fifo}
use nomad_firehose.Sink.Run.{Sink, effect, Runs, begin, put, go_on}

module _ {W : Type 0} (body : W → Bytes → W) (close : W → W) where
  -- The service forgotten, a sink is its queue.
  pub Runs-Reach :
      {workers : ℕ} {w : W} {ds : List Bytes} {s : Sink W}
      → Runs body close workers w ds s
      → Reach workers ds s.queue
  Runs-Reach begin = Queue.begin
  Runs-Reach (put d r lt) = Queue.put d (Runs-Reach r) lt
  Runs-Reach (go_on r st) = Queue.go_on (Runs-Reach r) st

  Step-wire :
      {workers : ℕ} (w v : W) {q q' : Queue} (st : Step workers q q')
      → q'.closed ≡ false
      → (q.closed ≡ false → v ≡ foldl body w q.attempted)
      → effect body close workers st v ≡ foldl body w q'.attempted
  Step-wire w v (take d rest e lt) o h = h o
  Step-wire w v {q = q} (write xs ys d e) o h =
      ap (λ u. body u d) (h o) ∙ sym (foldl-append body w q.attempted (d ∷ []))
  Step-wire w v (stop e c) o h = cc

  -- Until `Stop` has closed the channel, the service is as the body over the messages that were attempted, in
  -- the order of the attempts, leaves it.
  wire_refines :
      {workers : ℕ} {w : W} {ds : List Bytes} {s : Sink W}
      → Runs body close workers w ds s
      → s.queue.closed ≡ false
      → s.wire ≡ foldl body w s.queue.attempted
  wire_refines begin o = refl
  wire_refines (put d r lt) o = wire_refines r o
  wire_refines {w = w} (go_on {s = s} r st) o = Step-wire w s.wire st o (wire_refines r)

  -- For any body of a writer, a sink with one writer that is not stopped and has nothing left has
  -- left its service as a plain loop of that body over the accepted messages, in their order,
  -- leaves it.
  pub one_writer_loop :
      {w : W} {ds : List Bytes} {s : Sink W}
      → Runs body close 1 w ds s
      → s.queue.closed ≡ false
      → s.queue.put_ch ≡ []
      → s.queue.held ≡ []
      → s.wire ≡ foldl body w ds
  one_writer_loop {w} {ds} {s} r o e h = wire_refines r o ∙ ap (foldl body w) (sym in_order)
    where
      emptied : whereabouts s.queue ≡ s.queue.attempted
      emptied = rw (h, e) (append-nil s.queue.attempted)

      in_order : ds ≡ s.queue.attempted
      in_order = one_writer-fifo (Runs-Reach r) ∙ emptied

  -- Once nothing is left, the service has had all accepted messages, in the order of the attempts.
  pub drained_loop :
      {workers : ℕ} {w : W} {ds : List Bytes} {s : Sink W}
      → Runs body close workers w ds s
      → s.queue.closed ≡ false
      → s.queue.put_ch ≡ []
      → s.queue.held ≡ []
      → (s.wire ≡ foldl body w s.queue.attempted) × Perm ds s.queue.attempted
  drained_loop {ds = ds} {s = s} r o e h = (
    wire_refines r o,
    subst (Perm ds) (rw (h, e) (append-nil s.queue.attempted)) (messages_kept (Runs-Reach r)),
  )
