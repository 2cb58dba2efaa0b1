-- ===== src/Command/Fleet/Watchers.antt =====
-- The watchers of command/nodes, command/deployments and command/jobs as those of processes.
use nomad_firehose.Base.{ℕ, ◌≡◌, refl, map, String}
use nomad_firehose.Base.Order.{index_order}
use nomad_firehose.Command.Nomad.{Stub}
use nomad_firehose.Command.Nodes
use nomad_firehose.Command.Deployments
use nomad_firehose.Command.Jobs
use nomad_firehose.Command.Cluster.Runners.{Nodes-Numbered, Deployments-Numbered, Jobs-Numbered}
use nomad_firehose.Command.Watch.{Watch, Response, round}
use nomad_firehose.Command.Delivery.{index_of, start_at}
use nomad_firehose.Command.Fleet.{Watcher}

pub nodes_start : (k : ℕ) → Nodes.start_watch (record { last_change_index = k }) ≡ start_at k
unfolding Nodes.start_watch
nodes_start k = refl

pub nodes_round :
    (w : Watch ℕ) (r : Response Stub)
    → Nodes.watch_round w r ≡ ((round index_of w r).0, map (λ x. x.id) (round index_of w r).1)
unfolding Nodes.watch_round
nodes_round w r = refl

abbrev pub nodes_watcher : Watcher
nodes_watcher = record {
  runner = Nodes.runner;
  at = λ k. record { last_change_index = k };
  Effect = String;
  start_watch = Nodes.start_watch;
  watch_round = Nodes.watch_round;
  handle = λ x. x.id;
  numbered = Nodes-Numbered;
  start_watch-at = nodes_start;
  watch_round-round = nodes_round;
}

pub deployments_start :
    (k : ℕ) → Deployments.start_watch (record { last_change_time = k }) ≡ start_at k
unfolding Deployments.start_watch
deployments_start k = refl

pub deployments_round :
    (w : Watch ℕ) (r : Response Stub)
    → Deployments.watch_round w r ≡ ((round index_of w r).0, map (λ x. x.id) (round index_of w r).1)
unfolding Deployments.watch_round
deployments_round w r = refl

abbrev pub deployments_watcher : Watcher
deployments_watcher = record {
  runner = Deployments.runner;
  at = λ k. record { last_change_time = k };
  Effect = String;
  start_watch = Deployments.start_watch;
  watch_round = Deployments.watch_round;
  handle = λ x. x.id;
  numbered = Deployments-Numbered;
  start_watch-at = deployments_start;
  watch_round-round = deployments_round;
}

pub jobs_start : (k : ℕ) → Jobs.start_watch (record { last_change_index = k }) ≡ start_at k
unfolding Jobs.start_watch
jobs_start k = refl

pub jobs_round :
    {E : Type 0} (callback : Stub → E) (w : Watch ℕ) (r : Response Stub)
    → Jobs.watch_round index_of callback w r
      ≡ ((round index_of w r).0, map callback (round index_of w r).1)
unfolding Jobs.watch_round
jobs_round callback w r = refl

-- With the callback of either firehose.
abbrev pub jobs_watcher : {E : Type 0} → (Stub → E) → Watcher
jobs_watcher {E} callback = record {
  runner = Jobs.job_runner;
  at = λ k. record { last_change_index = k };
  Effect = E;
  start_watch = Jobs.start_watch;
  watch_round = Jobs.watch_round index_of callback;
  handle = callback;
  numbered = Jobs-Numbered;
  start_watch-at = jobs_start;
  watch_round-round = jobs_round callback;
}
