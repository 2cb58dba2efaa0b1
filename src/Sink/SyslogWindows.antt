-- ===== src/Sink/SyslogWindows.antt =====
-- sink/syslog_windows.go: a stub. `NewSyslog` of that file stands with the other constructors, in `Config`.
use nomad_firehose.Base.{false, []}
use nomad_firehose.Go.Value.{Bytes}
use nomad_firehose.Sink.Start.{Started}

-- The sink has no field.
pub data SyslogSink : Type 0 where
  stub : SyslogSink

-- `Start` returns at once and makes nothing, `Put` drops the message, `Stop` does nothing.
unfoldable pub start : Started
start = record { writers = []; batches = false; waits = false }

unfoldable pub put : SyslogSink → Bytes → SyslogSink
put s _ = s

unfoldable pub stop : SyslogSink → SyslogSink
stop s = s
