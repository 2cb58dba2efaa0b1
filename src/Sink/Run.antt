-- ===== src/Sink/Run.antt =====
-- A sink of sink/* as a whole: the queue of its messages, and what its writers have done to the service
-- behind it. The body of a writer and what `Stop` does at its end are parameters.
pub mod Laws
use mathlib.Core.Option
use nomad_firehose.Sink.Queue
use nomad_firehose.Sink.Start.{Look, map_look}
use nomad_firehose.Base.{Option, ℕ, ◌<◌, List, [], ◌∷◌, ◌++◌, length}
use nomad_firehose.Go.Value.{Bytes}
use nomad_firehose.Sink.Queue.{Queue, Step, take, write, stop, empty, capacity}

pub record Sink (W : Type 0) : Type 0 where
  pub queue : Queue
  pub wire : W

-- `Put`, and the loop of `Stop` with what follows it.
unfoldable pub try_put : {W : Type 0} → Sink W → Bytes → Option (Sink W)
try_put s d = Option.map (λ q. record s { queue = q }) (Queue.try_put s.queue d)

unfoldable pub try_stop : {W : Type 0} → (W → W) → Sink W → Look (Sink W)
try_stop close s =
    map_look (λ q. record { queue = q; wire = close s.wire }) (Queue.try_stop s.queue)

module _ {W : Type 0} (body : W → Bytes → W) (close : W → W) (workers : ℕ) where
  -- What a step of the queue does to the service: a writer that writes runs its body, and `Stop` closes
  -- the client after `stopCh`.
  abbrev pub effect : {q q' : Queue} → Step workers q q' → W → W
  effect (take d rest e lt) w = w
  effect (write xs ys d e) w = body w d
  effect (stop e c) w = close w

  -- The states of a sink whose client was in the state `w`, with the messages that `Put` has accepted.
  pub data Runs (w : W) : List Bytes → Sink W → Type 0 where
    begin : Runs w [] (record { queue = empty; wire = w })
    put :
        {ds : List Bytes} {s : Sink W} (d : Bytes)
        → Runs w ds s
        → length s.queue.put_ch < capacity
        → Runs w
            (ds ++ d ∷ [])
            (record s { queue = record s.queue { put_ch = s.queue.put_ch ++ d ∷ [] } })
    go_on :
        {ds : List Bytes} {s : Sink W} {q' : Queue}
        → Runs w ds s
        → (st : Step workers s.queue q')
        → Runs w ds (record { queue = q'; wire = effect st s.wire })
