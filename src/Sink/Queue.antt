-- ===== src/Sink/Queue.antt =====
-- `Put`, `Stop` and the writers of the sinks that send one message at a time: http.go, kafka.go,
-- kinesis.go, mongodb.go, nsq.go, rabbitmq.go, redis.go and syslog_unix.go. They differ in the number
-- of writers.
pub mod Laws
pub mod Drain
use nomad_firehose.Base.{
  ltb, if◌then◌else◌, Option, none, some, ℕ, ◌<◌, ◌≡◌, Bool, true, false, List, [], ◌∷◌, ◌++◌,
  length,
}
use nomad_firehose.Go.Value.{Bytes}
use nomad_firehose.Sink.Start.{Look, waits, panics, passes}

-- `make(chan []byte, 1000)`.
abbrev pub capacity : ℕ
capacity = 1000

-- `putCh`, the messages that writers have taken and not yet written, the messages that were written
-- or whose error was logged, in order, and whether `Stop` has closed `stopCh`.
pub record Queue : Type 0 where
  pub put_ch : List Bytes
  pub held : List Bytes
  pub attempted : List Bytes
  pub closed : Bool

abbrev pub empty : Queue
empty = record { put_ch = []; held = []; attempted = []; closed = false }

-- `Put`, which waits (`none`) while the channel is full, and a look of the loop of `Stop` at the channel.
unfoldable pub try_put : Queue → Bytes → Option Queue
try_put q d =
    if ltb (length q.put_ch) capacity then some (record q { put_ch = q.put_ch ++ d ∷ [] }) else none

unfoldable pub try_stop : Queue → Look Queue
try_stop q =
    if ltb 0 (length q.put_ch)
    then waits
    else if q.closed
    then panics
    else passes (record q { closed = true })

-- A writer takes the oldest message and writes it; the loop of `Stop` passes when it sees an empty
-- channel. No writer looks at `stopCh`.
pub data Step (workers : ℕ) (q : Queue) : Queue → Type 0 where
  take :
      (d : Bytes) (rest : List Bytes)
      → q.put_ch ≡ d ∷ rest
      → length q.held < workers
      → Step workers q (record q { put_ch = rest; held = q.held ++ d ∷ [] })
  write :
      (xs ys : List Bytes) (d : Bytes)
      → q.held ≡ xs ++ d ∷ ys
      → Step workers q (record q { held = xs ++ ys; attempted = q.attempted ++ d ∷ [] })
  stop : q.put_ch ≡ [] → q.closed ≡ false → Step workers q (record q { closed = true })

-- The states of a sink with so many writers, with the messages that `Put` has accepted. `Put` waits
-- while the channel is full.
pub data Reach (workers : ℕ) : List Bytes → Queue → Type 0 where
  begin : Reach workers [] empty
  put :
      {ds : List Bytes} {q : Queue} (d : Bytes)
      → Reach workers ds q
      → length q.put_ch < capacity
      → Reach workers (ds ++ d ∷ []) (record q { put_ch = q.put_ch ++ d ∷ [] })
  go_on :
      {ds : List Bytes} {q q' : Queue}
      → Reach workers ds q
      → Step workers q q'
      → Reach workers ds q'
