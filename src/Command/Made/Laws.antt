-- ===== src/Command/Made/Laws.antt =====
-- `NewFirehose` for a type of sink that is not known.
use nomad_firehose.Base.{
  ◌≡◌, ◌≢◌, ◌⊎◌, refl, ap, inl, inr, Bool, true, false, String, All, Bool-cases,
}
use nomad_firehose.Command.Lifecycle.{Package, allocations, nodes, deployments, evaluations, jobs}
use nomad_firehose.Command.Made.{
  refused, ended, or_return, or_fatal, new_allocations, new_nodes, new_deployments, new_evaluations,
  new_jobs, new_firehose,
}
use nomad_firehose.Sink.Config.{
  Env, Services, SinkError, missing, invalid_type, err, is_empty, get_sink, windows, unsupported,
  new_syslog_for,
}
use nomad_firehose.Sink.Config.Known.{known_types, apart, get_sink_unknown}

-- No firehose is made when `GetSink` gives an error for every name.
err_unmade :
    (client : Bool) (services : Services) (env : Env) (p : Package)
    → ((name : String) → (e : SinkError) × (get_sink services env name ≡ err e))
    → (new_firehose client services env p ≡ refused) ⊎ (new_firehose client services env p ≡ ended)
unfolding new_firehose new_allocations new_nodes new_deployments new_evaluations new_jobs or_return
    or_fatal
err_unmade false services env allocations h = inl refl
err_unmade false services env nodes h = inl refl
err_unmade false services env deployments h = inl refl
err_unmade false services env evaluations h = inl refl
err_unmade false services env jobs h = inl refl
err_unmade true services env allocations h = inl (ap or_return (h "allocations").1)
err_unmade true services env nodes h = inl (ap or_return (h "nodes").1)
err_unmade true services env deployments h = inr (ap or_fatal (h "deployments").1)
err_unmade true services env evaluations h = inr (ap or_fatal (h "evaluations").1)
err_unmade true services env jobs h = inl (ap or_return (h "jobs").1)

-- `GetSink` gives an error for such a type, and for none.
get_sink_err :
    (services : Services) (env : Env) (name : String)
    → All (λ t. env "SINK_TYPE" ≢ t) known_types
    → (e : SinkError) × (get_sink services env name ≡ err e)
unfolding get_sink
get_sink_err services env name h = elim (Bool-cases (is_empty (env "SINK_TYPE"))) [
  | inl unset ↦ (missing "SINK_TYPE", rw unset refl)
  | inr set ↦ (
    invalid_type (env "SINK_TYPE"),
    get_sink_unknown services env name (apart (env "SINK_TYPE") "" set) h,
  )
]

-- No firehose is made.
pub unknown_sink_refused :
    (client : Bool) (services : Services) (env : Env) (p : Package)
    → All (λ t. env "SINK_TYPE" ≢ t) known_types
    → (new_firehose client services env p ≡ refused) ⊎ (new_firehose client services env p ≡ ended)
unknown_sink_refused client services env p h =
    err_unmade client services env p (λ name. get_sink_err services env name h)

-- Of a build for Windows, `GetSink` gives an error for syslog.
windows_err :
    (services : Services) (env : Env) (name : String)
    → services.platform ≡ windows
    → env "SINK_TYPE" ≡ "syslog"
    → get_sink services env name ≡ err unsupported
unfolding get_sink new_syslog_for
windows_err services env name w e = rw (e, w) refl

-- No firehose is made.
pub windows_refused :
    (client : Bool) (services : Services) (env : Env) (p : Package)
    → services.platform ≡ windows
    → env "SINK_TYPE" ≡ "syslog"
    → (new_firehose client services env p ≡ refused) ⊎ (new_firehose client services env p ≡ ended)
windows_refused client services env p w e =
    err_unmade client services env p (λ name. (unsupported, windows_err services env name w e))
