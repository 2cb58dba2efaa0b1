-- ===== src/Tests/Shutdown.antt =====
-- The end of a term of leadership, with an HTTP sink that has one writer, and with one that has none.
use nomad_firehose.Base.{◌≡◌, ◌≢◌, refl, true, [], ◌∷◌}
use nomad_firehose.Command.Lifecycle
use nomad_firehose.Command.Lifecycle.{Running}
use nomad_firehose.Command.Shutdown.{Ending, called, unlocked, Steps, here, then_, close_channel}
use nomad_firehose.Command.Shutdown.Laws.{stop_open, lock_released, lock_kept}
use nomad_firehose.Sink.Mailbox.{bag}
use nomad_firehose.Sink.Launch.{implementation}
use nomad_firehose.Tests.Interface.{
  libraries, one_writer, one_writer_starts, no_writer, no_writer_starts, waiting, put_two, one_kept,
}

abbrev leading : Running
leading = record { stop_ch = Lifecycle.open_; watchers = 1; savers = 1; waiting = true }

abbrev two_left : Ending (implementation libraries one_writer)
two_left = record { running = leading; sink = waiting ((1 ∷ []) ∷ [] ∷ []); phase = called }

lock_released_example :
    (f : Ending (implementation libraries one_writer)) × Steps
      (implementation libraries one_writer)
      two_left
      f
    × (f.phase ≡ unlocked)
    × (((implementation libraries one_writer).view f.sink).finished ≡ bag ((1 ∷ []) ∷ [] ∷ []))
lock_released_example =
    lock_released libraries one_writer two_left one_writer_starts (put_two (1 ∷ []) []) refl refl
      refl

abbrev one_left : Ending (implementation libraries no_writer)
one_left = record { running = leading; sink = waiting ((1 ∷ []) ∷ []); phase = called }

first_step :
    (f : Ending (implementation libraries no_writer)) × Steps
      (implementation libraries no_writer)
      one_left
      f
first_step = (_, then_ here (close_channel _ refl (stop_open leading refl)))

lock_kept_example : first_step.0.phase ≢ unlocked
lock_kept_example =
    lock_kept libraries no_writer one_left first_step.0 no_writer_starts one_kept refl first_step.1
