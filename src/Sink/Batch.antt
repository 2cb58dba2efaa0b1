-- ===== src/Sink/Batch.antt =====
-- `batch` of sqs.go and event_bridge.go: messages are gathered into batches of ten, or fewer when the
-- channel runs dry for a tick of the clock.
pub mod Laws
pub mod Requests
pub mod Interface
pub mod Settle
use nomad_firehose.Base.{
  ℕ, ◌<◌, ◌≤◌, ◌≡◌, Bool, true, false, List, [], ◌∷◌, ◌++◌, length, ltb, ◌==◌, if◌then◌else◌,
  Option, none, some,
}
use nomad_firehose.Go.Value.{Bytes}
use nomad_firehose.Sink.Start.{Look, waits, panics, passes}

-- `make(chan []byte, 1000)` and `make(chan [][]byte, 100)`.
abbrev pub put_capacity : ℕ
put_capacity = 1000

abbrev pub batch_capacity : ℕ
batch_capacity = 100

-- The goroutine waits in its `select`, or at `s.batchCh <- buffer`.
pub data Phase : Type 0 where
  selecting sending : Phase

-- The channels, the buffer of the goroutine, the batches that the writer took, and whether `Stop` has
-- closed `stopCh`.
pub record Batcher : Type 0 where
  pub put_ch : List Bytes
  pub buffer : List Bytes
  pub phase : Phase
  pub batch_ch : List (List Bytes)
  pub taken : List (List Bytes)
  pub closed : Bool

abbrev pub empty : Batcher
empty = record {
  put_ch = [];
  buffer = [];
  phase = selecting;
  batch_ch = [];
  taken = [];
  closed = false;
}

-- What may happen next: `Put`, the two cases of the `select`, the send that follows them, the writer
-- at its channel, the loop of `Stop`.
pub data Event : Type 0 where
  put : Bytes → Event
  receive tick send take stop : Event

-- The case `data := <-s.putCh`.
unfoldable pub received : Batcher → Bytes → List Bytes → Batcher
received b d rest =
    let buffer = b.buffer ++ d ∷ [] in
    record b {
      put_ch = rest;
      buffer = buffer;
      phase = if length buffer == 10 then sending else selecting;
    }

-- The case `<-ticker.C`.
unfoldable pub ticked : Batcher → Batcher
ticked b =
    if ltb 0 (length b.put_ch)
    then b
    else if ltb 0 (length b.buffer)
    then record b { phase = sending }
    else b

unfoldable pub try_put : Batcher → Bytes → Option Batcher
try_put b d =
    if ltb (length b.put_ch) put_capacity
    then some (record b { put_ch = b.put_ch ++ d ∷ [] })
    else none

unfoldable pub try_receive : Phase → List Bytes → Batcher → Option Batcher
unfolding received
try_receive selecting (d ∷ rest) b = some (received b d rest)
try_receive _ _ b = none

unfoldable pub try_tick : Phase → Batcher → Option Batcher
unfolding ticked
try_tick selecting b = some (ticked b)
try_tick sending b = none

unfoldable pub try_send : Phase → Batcher → Option Batcher
try_send selecting b = none
try_send sending b =
    if ltb (length b.batch_ch) batch_capacity
    then some (record b { batch_ch = b.batch_ch ++ b.buffer ∷ []; buffer = []; phase = selecting })
    else none

unfoldable pub try_take : List (List Bytes) → Batcher → Option Batcher
try_take [] b = none
try_take (batch ∷ rest) b = some (record b { batch_ch = rest; taken = b.taken ++ batch ∷ [] })

unfoldable pub try_stop : Batcher → Look Batcher
try_stop b =
    if ltb 0 (length b.put_ch)
    then waits
    else if b.closed
    then panics
    else passes (record b { closed = true })

abbrev pub passed : Look Batcher → Option Batcher
passed (passes b) = some b
passed _ = none

-- An event changes the state, or has to wait or panics (`none`).
unfoldable pub step : Batcher → Event → Option Batcher
unfolding try_put try_receive try_tick try_send try_take try_stop
step b (put d) = try_put b d
step b receive = try_receive b.phase b.put_ch b
step b tick = try_tick b.phase b
step b send = try_send b.phase b
step b take = try_take b.batch_ch b
step b stop = passed (try_stop b)

-- The messages that an event puts.
abbrev pub put_of : Event → List Bytes
put_of (put d) = d ∷ []
put_of _ = []

-- The states of a sink, with the messages that `Put` has accepted.
pub data Reach : List Bytes → Batcher → Type 0 where
  begin : Reach [] empty
  go_on :
      {ds : List Bytes} {b b' : Batcher} (e : Event)
      → Reach ds b
      → step b e ≡ some b'
      → Reach (ds ++ put_of e) b'
