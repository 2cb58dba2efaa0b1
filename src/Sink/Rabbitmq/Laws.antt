-- ===== src/Sink/Rabbitmq/Laws.antt =====
-- The sink of sink/rabbitmq.go when no writer comes to its loop.
use nomad_firehose.Base.{ℕ, ◌≡◌, refl, sym, ap, subst, false, Bool, List, [], ◌∷◌, select, length}
use nomad_firehose.Go.Value.{Bytes}
use nomad_firehose.Sink.Calls.{Calls}
use nomad_firehose.Sink.Queue.{Reach}
use nomad_firehose.Sink.Queue.Laws.{no_writer_stuck}
use nomad_firehose.Sink.Run.{Sink, Runs}
use nomad_firehose.Sink.Run.Laws.{Runs-Reach}
use nomad_firehose.Sink.Rabbitmq.{RabbitmqSink, Publishing, start, live_writers, write, close}

select_none : {A : Type 0} (p : A → Bool) (xs : List A) → ((x : A) → p x ≡ false) → select p xs ≡ []
select_none p [] h = refl
select_none p (x ∷ xs) h = rw (h x) (select_none p xs h)

no_live_writers :
    (channel : ℕ → Bool) (s : RabbitmqSink)
    → ((id : ℕ) → channel id ≡ false)
    → live_writers channel s ≡ []
unfolding live_writers
no_live_writers channel s h = select_none channel (start s).writers h

module _ {S : Type 0} (publish : S → Publishing → S × Bool) (close_connection : S → S)
    (channel : ℕ → Bool) (s : RabbitmqSink) where
  -- The sink as a whole, with as many writers as come to their loop.
  abbrev pub SinkRuns : Calls S Publishing → List Bytes → Sink (Calls S Publishing) → Type 0
  SinkRuns = Runs (write publish s) (close close_connection) (length (live_writers channel s))

  -- When the connection of the RabbitMQ sink gives no writer a channel, in every state that the
  -- sink reaches with at least one accepted message, none was attempted and all wait in the
  -- channel, which the loop of `Stop` waits for.
  pub no_channel_stuck :
      (w : Calls S Publishing) (d : Bytes) (ds : List Bytes) (y : Sink (Calls S Publishing))
      → ((id : ℕ) → channel id ≡ false)
      → SinkRuns w (d ∷ ds) y
      → (y.queue.attempted ≡ []) × (y.queue.put_ch ≡ d ∷ ds)
  no_channel_stuck w d ds y h r =
      let r0 : Reach 0 (d ∷ ds) y.queue =
        subst (λ k. Reach k (d ∷ ds) y.queue) (ap length (no_live_writers channel s h))
          (Runs-Reach (write publish s) (close close_connection) r) in
      let (held, waiting, attempted) = no_writer_stuck r0 in (attempted, sym waiting)
