-- ===== src/Command/Made.antt =====
-- `NewFirehose` of the packages under command/: the Nomad client, then the sink. Is the client made is a
-- parameter.
pub mod Laws
use nomad_firehose.Base.{Bool, if◌then◌else◌}
use nomad_firehose.Command.Lifecycle.{Package, allocations, nodes, deployments, evaluations, jobs}
use nomad_firehose.Sink.Config.{Env, Services, Sink, Result, ok, err, exits, get_sink}

-- A firehose with its sink, an error for the caller, or the end of the process by `log.Fatal`.
pub data Made : Type 0 where
  made : Sink → Made
  refused ended : Made

-- An error of `GetSink` that goes to the caller, and one that ends the process.
unfoldable pub or_return : Result Sink → Made
or_return (ok s) = made s
or_return (err e) = refused
or_return exits = ended

unfoldable pub or_fatal : Result Sink → Made
or_fatal (ok s) = made s
or_fatal (err e) = ended
or_fatal exits = ended

-- Is the Nomad client made is the first argument.
module _ (client : Bool) (services : Services) (env : Env) where
  unfoldable pub new_allocations : Made
  unfolding or_return
  new_allocations = if client then or_return (get_sink services env "allocations") else refused

  unfoldable pub new_nodes : Made
  unfolding or_return
  new_nodes = if client then or_return (get_sink services env "nodes") else refused

  unfoldable pub new_deployments : Made
  unfolding or_fatal
  new_deployments = if client then or_fatal (get_sink services env "deployments") else refused

  unfoldable pub new_evaluations : Made
  unfolding or_fatal
  new_evaluations = if client then or_fatal (get_sink services env "evaluations") else refused

  -- `NewFirehoseBase`, for both firehoses of jobs, which return its error.
  unfoldable pub new_jobs : Made
  unfolding or_return
  new_jobs = if client then or_return (get_sink services env "jobs") else refused

  -- The one of a package.
  unfoldable pub new_firehose : Package → Made
  unfolding new_allocations new_nodes new_deployments new_evaluations new_jobs
  new_firehose allocations = new_allocations
  new_firehose nodes = new_nodes
  new_firehose deployments = new_deployments
  new_firehose evaluations = new_evaluations
  new_firehose jobs = new_jobs
