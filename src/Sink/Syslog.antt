-- ===== src/Sink/Syslog.antt =====
-- sink/syslog_unix.go. The daemon is a parameter; the writer returns if it cannot be dialled.
use nomad_firehose.Base.{length, true, false, Bool, List, [], ◌∷◌, String, ℕ, if◌then◌else◌}
use nomad_firehose.Go.Value.{Bytes}
use nomad_firehose.Sink.Start.{Started}
use nomad_firehose.Sink.Calls.{Calls, call, connected}
use nomad_firehose.Sink.Service.{service_sink}
use nomad_firehose.Sink.Interface.{SinkInterface}

-- The severities that the sink names.
pub data Priority : Type 0 where
  log_info log_notice : Priority

-- Nothing reads the priority: the writer dials with another one.
pub record SyslogSink : Type 0 where
  pub addr : String
  pub proto : String
  pub priority : Priority
  pub tag : String

unfoldable pub start : Started
start = record { writers = 0 ∷ []; batches = false; waits = true }

-- `syslog.Dial`, with or without an error.
unfoldable pub live_writers : (String → String → Priority → String → Bool) → SyslogSink → List ℕ
unfolding start
live_writers dial s = if dial s.proto s.addr log_notice s.tag then start.writers else []

module _ {S : Type 0} (log : S → Bytes → S × Bool) where
  -- The body of the loop of `write`.
  unfoldable pub write : Calls S Bytes → Bytes → Calls S Bytes
  unfolding call
  write w d = call log w d

module _ {S : Type 0} (dial : String → String → Priority → String → Bool)
    (log : S → Bytes → S × Bool) (s : SyslogSink) where
  -- The sink as a whole, of a client in that state.
  abbrev pub implementation : S → SinkInterface
  implementation service =
      service_sink start (length (live_writers dial s)) (write log) (λ w. w) (connected service)
