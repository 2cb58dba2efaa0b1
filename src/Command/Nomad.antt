-- ===== src/Command/Nomad.antt =====
-- What the watchers read of the answers of Nomad's API.
use nomad_firehose.Base.{ℕ, Bool, List, String}
use nomad_firehose.Base.Int.{ℤ}
use nomad_firehose.Go.Value.{Bytes}

-- What the watchers read of a node, a deployment or a job in a list, when they read the whole of it later.
pub record Stub : Type 0 where
  pub id : String
  pub modify_index : ℕ

-- A job in a list, which is published as it is: the fields that are read, and the others, with the status and
-- the summary of the job, as they come.
pub record JobListStub : Type 0 where
  pub id : String
  pub modify_index : ℕ
  pub others : Bytes

-- The time of an event, and its other fields as they come.
pub record TaskEvent : Type 0 where
  pub time : ℤ
  pub others : String

-- The times are opaque stamps.
pub record TaskState : Type 0 where
  pub state : String
  pub failed : Bool
  pub started_at : ℕ
  pub finished_at : ℕ
  pub events : List TaskEvent

-- `task_states` is a map: its items come in the order in which a loop over it meets them.
pub record Allocation : Type 0 where
  pub id : String
  pub eval_id : String
  pub name : String
  pub node_id : String
  pub job_id : String
  pub task_group : String
  pub desired_status : String
  pub desired_description : String
  pub client_status : String
  pub client_description : String
  pub task_states : List (String × TaskState)
