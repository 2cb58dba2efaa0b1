-- ===== src/Sink/Service/Settle.antt =====
-- The writers of the sinks of sink/* that send one message at a time, once no more messages are put.
use nomad_firehose.Base.{◌∙◌, false, ℕ, ◌<◌, ◌≡◌, refl, [], true}
use nomad_firehose.Go.Value.{Bytes}
use nomad_firehose.Sink.Start.{Started, passes}
use nomad_firehose.Sink.Queue
use nomad_firehose.Sink.Queue.Drain.{Writing, unmoved, work_on, writers_drain, closed-Writing}
use nomad_firehose.Sink.Run.{Sink, try_stop, effect}
use nomad_firehose.Sink.Interface.{Goes, still, further, Settles}
use nomad_firehose.Sink.Service.{service_sink, move}

module _ {W : Type 0} (started : Started) (workers : ℕ) (body : W → Bytes → W) (close : W → W)
    (connected : W) where
  -- Steps of the queue are steps of the sink.
  Goes-Writing :
      (s : Sink W) {n : ℕ} {q : Queue.Queue}
      → Writing workers s.queue n q
      → (w : W) × Goes
          (service_sink started workers body close connected)
          s
          (record { queue = q; wire = w })
  Goes-Writing s unmoved = (s.wire, still)
  Goes-Writing s (work_on r st work) =
      let (w, g) = Goes-Writing s r in (effect body close workers st w, further g (move st work))

  stop_passes :
      (q : Queue.Queue) (w : W)
      → q.put_ch ≡ []
      → q.closed ≡ false
      → try_stop close (record { queue = q; wire = w })
        ≡ passes (record { queue = record q { closed = true }; wire = close w })
  unfolding try_stop Queue.try_stop
  stop_passes q w e o = rw (e, o) refl

  pub service-Settles :
      (s : Sink W)
      → 0 < workers
      → s.queue.closed ≡ false
      → Settles (service_sink started workers body close connected) s
  service-Settles s some_writer o =
      let (n, q, r, e, h) = writers_drain workers s.queue some_writer in
      let (w, g) = Goes-Writing s r in
      (
        record { queue = q; wire = w },
        g,
        rw (e, h) refl,
        (_, stop_passes q w e (closed-Writing r ∙ o)),
      )
