-- ===== src/Sink/Service/Stuck.antt =====
-- The sinks of sink/* that send one message at a time, without a writer.
use nomad_firehose.Base.{
  ℕ, ◌≡◌, refl, ap, sym, ◌∙◌, subst, List, [], ◌∷◌, ◌++◌, arith, length, length-append, ltb, true,
}
use nomad_firehose.Go.Value.{Bytes}
use nomad_firehose.Sink.Start.{Started, waits, passes}
use nomad_firehose.Sink.Queue
use nomad_firehose.Sink.Mailbox.{bag}
use nomad_firehose.Sink.Run.{Sink, try_stop}
use nomad_firehose.Sink.Interface.{Reach, begin, put, stop, go_on}
use nomad_firehose.Sink.Service.{service_sink, move, put_inv}

module _ {W : Type 0} (started : Started) (body : W → Bytes → W) (close : W → W)
    (connected : W) where
  -- All that was accepted is in the channel.
  abbrev Waits : List Bytes → Sink W → Type 0
  Waits ds s = (s.queue.put_ch ≡ ds) × (s.queue.held ≡ []) × (s.queue.attempted ≡ [])

  try_stop-same :
      (s s' : Sink W) (ds : List Bytes) → try_stop close s ≡ passes s' → Waits ds s → Waits ds s'
  unfolding try_stop Queue.try_stop
  try_stop-same s s' ds e (p, h, a) = ground arith

  all_wait :
      {ds : List Bytes} {s : Sink W}
      → Reach (service_sink started 0 body close connected) ds s
      → Waits ds s
  all_wait begin = (refl, refl, refl)
  all_wait (put {ds = ds} {s = s} {s' = s'} d r e) =
      let (p, h, a) = all_wait r in
      let (room, same) = put_inv started 0 body close connected s s' d e in
      rw same (ap (λ l. l ++ d ∷ []) p, h, a)
  all_wait (stop {ds = ds} {s = s} {s' = s'} r e) = try_stop-same s s' ds e (all_wait r)
  all_wait (go_on r (move (Queue.take d rest e lt) w)) = absurd (omega (arith, lt))
  all_wait (go_on r (move (Queue.write xs ys d e) w)) =
      let (p, h, a) = all_wait r in
      absurd (omega (arith, ap length (sym e ∙ h), length-append xs (d ∷ ys)))
  all_wait (go_on r (move (Queue.stop e c) w)) = absurd w

  stop_waits :
      (s : Sink W) (d : Bytes) (ds : List Bytes)
      → s.queue.put_ch ≡ d ∷ ds
      → try_stop close s ≡ waits
  unfolding try_stop Queue.try_stop
  stop_waits s d ds e =
      let long : ltb 0 (length s.queue.put_ch) ≡ true = ground (arith, ap length e) in rw long refl

  -- With a message accepted, `Stop` never passes, and nothing was handed over.
  pub no_writer_stuck :
      {d : Bytes} {ds : List Bytes} (s : Sink W) (workers : ℕ)
      → workers ≡ 0
      → Reach (service_sink started workers body close connected) (d ∷ ds) s
      → (try_stop close s ≡ waits) × (bag s.queue.attempted ≡ bag [])
  no_writer_stuck {d} {ds} s workers none_there r =
      let r0 =
        subst (λ n. Reach (service_sink started n body close connected) (d ∷ ds) s) none_there r in
      let (p, h, a) = all_wait r0 in (stop_waits s d ds p, ap bag a)
