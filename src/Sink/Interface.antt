-- ===== src/Sink/Interface.antt =====
-- `Sink` of sink/structs.go, as the firehoses see it: operations, with what each implementation keeps to.
pub mod Laws
use nomad_firehose.Base.{Bool, ◌≡◌, List, [], ◌∷◌, ◌++◌, Option, some}
use nomad_firehose.Go.Value.{Bytes}
use nomad_firehose.Sink.Start.{Started, Look, passes}
use nomad_firehose.Sink.Mailbox.{bag, Mailbox, accept, Moves}

pub record SinkInterface : Type 1 where
  pub State : Type 0
  -- After the constructor.
  pub empty : State
  -- `Start`.
  pub started : Started
  -- `Put`; `none` is a call that has to wait.
  pub put : State → Bytes → Option State
  -- A look of the loop of `Stop`, and what follows the loop.
  pub stop : State → Look State
  -- Is `stopCh`, which `Start` has made, closed?
  pub stopped : State → Bool
  -- The goroutines of the sink.
  pub Step : State → State → Type 0
  -- What the sink holds, and what it has handed over.
  pub view : State → Mailbox
  pub view-empty : view empty ≡ record { pending = bag []; finished = bag [] }
  pub put-Moves :
      (s s' : State) (d : Bytes) → put s d ≡ some s' → Moves (accept (d ∷ []) (view s)) (view s')
  pub stop-same : (s s' : State) → stop s ≡ passes s' → view s' ≡ view s
  pub Step-Moves : {s s' : State} → Step s s' → Moves (view s) (view s')

module _ (k : SinkInterface) where
  -- The states of the sink, with the messages that `Put` has accepted.
  pub data Reach : List Bytes → k.State → Type 0 where
    begin : Reach [] k.empty
    put :
        {ds : List Bytes} {s s' : k.State} (d : Bytes)
        → Reach ds s
        → k.put s d ≡ some s'
        → Reach (ds ++ d ∷ []) s'
    stop : {ds : List Bytes} {s s' : k.State} → Reach ds s → k.stop s ≡ passes s' → Reach ds s'
    go_on : {ds : List Bytes} {s s' : k.State} → Reach ds s → k.Step s s' → Reach ds s'

  -- Steps of the goroutines alone.
  pub data Goes (s : k.State) : k.State → Type 0 where
    still : Goes s s
    further : {s' s'' : k.State} → Goes s s' → k.Step s' s'' → Goes s s''

  -- Nothing is left in the channels of the sink nor in the hands of its goroutines.
  abbrev pub Settled : k.State → Type 0
  Settled s = (k.view s).pending ≡ bag []

  -- The goroutines can bring the sink to a state with nothing left, in which `Stop` passes.
  abbrev pub Settles : k.State → Type 0
  Settles s = (s' : k.State) × Goes s s' × Settled s' × ((s'' : k.State) × (k.stop s' ≡ passes s''))
