-- ===== src/Program/Laws.antt =====
-- The commands of main.go when no sink can be made, and their names in Consul.
use nomad_firehose.Base.{◌≡◌, ◌≢◌, ◌⊎◌, refl, inl, inr, Bool, All}
use nomad_firehose.Command.Lifecycle.{Package}
use nomad_firehose.Command.Made.{Made, refused, ended, new_firehose}
use nomad_firehose.Command.Made.Laws.{unknown_sink_refused, windows_refused}
use nomad_firehose.Sink.Config.{Env, Services, windows}
use nomad_firehose.Sink.Config.Known.{known_types}
use nomad_firehose.Program.{fatal, action, commands}
use nomad_firehose.Helper.Manager.Terms.{Fits}
use nomad_firehose.Command.Restart.{runners_fit}

action_fatal : (m : Made) (started : Bool) → (m ≡ refused) ⊎ (m ≡ ended) → action m started ≡ fatal
unfolding action
action_fatal m started (inl e) = rw e refl
action_fatal m started (inr e) = rw e refl

-- When SINK_TYPE, or the empty text if it is not set, is none of the known types, every command
-- ends with `log.Fatal`, whichever package makes the firehose, whether or not the Nomad client is
-- made, and whatever the manager would return.
pub unknown_sink_fatal :
    (client started : Bool) (services : Services) (env : Env) (p : Package)
    → All (λ t. env "SINK_TYPE" ≢ t) known_types
    → action (new_firehose client services env p) started ≡ fatal
unknown_sink_fatal client started services env p h =
    action_fatal (new_firehose client services env p) started
      (unknown_sink_refused client services env p h)

-- Of a build for Windows, every command ends with `log.Fatal` when SINK_TYPE is `syslog`.
windows_syslog_fatal :
    (client started : Bool) (services : Services) (env : Env) (p : Package)
    → services.platform ≡ windows
    → env "SINK_TYPE" ≡ "syslog"
    → action (new_firehose client services env p) started ≡ fatal
windows_syslog_fatal client started services env p w e =
    action_fatal (new_firehose client services env p) started
      (windows_refused client services env p w e)

-- The runner of every command starts from 0 and from any `int64`, which are the types that the
-- manager restores, and each of its updates is of a type that the manager can write.
commands_fit : All (λ c. Fits c.1.1) commands
commands_fit = let (a, n, d, e, j, s) = runners_fit in (a, (n, (e, (j, (s, (d, tt))))))
