-- ===== src/Command/Cluster/Runners.antt =====
-- The firehoses whose states are indexes that only rise: nodes, deployments and jobs.
use nomad_firehose.Base.{refl}
use nomad_firehose.Go.Value.{to_uint64}
use nomad_firehose.Command.Nodes
use nomad_firehose.Command.Deployments
use nomad_firehose.Command.Jobs
use nomad_firehose.Command.Restart.{Nodes-Resumes, Deployments-Resumes, Jobs-Resumes}
use nomad_firehose.Command.Cluster.Laws.{Numbered}

pub Nodes-Numbered : Numbered Nodes.runner (λ k. record { last_change_index = k })
unfolding Nodes.set_restore_value to_uint64
Nodes-Numbered = record {
  number = λ f. f.last_change_index;
  number-at = λ k. refl;
  from_zero = λ st. refl;
  resumes = λ k small. Nodes-Resumes (record { last_change_index = k }) small;
}

pub Deployments-Numbered : Numbered Deployments.runner (λ k. record { last_change_time = k })
unfolding Deployments.set_restore_value to_uint64
Deployments-Numbered = record {
  number = λ f. f.last_change_time;
  number-at = λ k. refl;
  from_zero = λ st. refl;
  resumes = λ k small. Deployments-Resumes (record { last_change_time = k }) small;
}

pub Jobs-Numbered : Numbered Jobs.job_runner (λ k. record { last_change_index = k })
unfolding Jobs.set_restore_value to_uint64
Jobs-Numbered = record {
  number = λ f. f.last_change_index;
  number-at = λ k. refl;
  from_zero = λ st. refl;
  resumes = λ k small. Jobs-Resumes (record { last_change_index = k }) small;
}
