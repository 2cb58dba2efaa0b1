-- ===== src/Command/Jobs.antt =====
-- command/jobs: base.go, job.go and jobsliststub.go. Two firehoses share `FirehoseBase`, and differ in
-- their names and in what they do with a job of the list.
use nomad_firehose.Base.{ℕ, map, List, Option, none, some, String}
use nomad_firehose.Go.Value.{Value, int, int64, uint64, to_uint64, Bytes}
use nomad_firehose.Base.Order.{index_order}
use nomad_firehose.Helper.Runner.{Runner}
use nomad_firehose.Command.Nomad.{Stub, JobListStub}
use nomad_firehose.Command.Watch.{Response, Watch, round, turns}
use nomad_firehose.Command.Publish.{publish}

pub record FirehoseBase : Type 0 where
  pub last_change_index : ℕ  -- uint64

unfoldable pub set_restore_value : Value → FirehoseBase → Option FirehoseBase
unfolding to_uint64
set_restore_value (int v) f = some (record f { last_change_index = to_uint64 v })
set_restore_value (int64 v) f = some (record f { last_change_index = to_uint64 v })
set_restore_value _ f = none

unfoldable pub update : FirehoseBase → Value
update f = uint64 f.last_change_index

unfoldable pub start_watch : FirehoseBase → Watch ℕ
start_watch f = record {
  wait_index = f.last_change_index;
  new_max = f.last_change_index;
  last_change = f.last_change_index;
}

-- One turn of `watch`, for jobs that are read as an `A` with its index; the callback `w` is called on each job that is found, in order, and its
-- effects are listed.
unfoldable pub watch_round :
    {A E : Type 0} → (A → ℕ) → (A → E) → Watch ℕ → Response A → Watch ℕ × List E
unfolding round
watch_round index callback w r = let (w', found) = round index w r in (w', map callback found)

-- `watch`, for the answers that come: the firehose after them, and the effects of the callback.
unfoldable pub watch :
    {A E : Type 0} → (A → ℕ) → (A → E) → FirehoseBase → List (Response A) → FirehoseBase × List E
unfolding turns
watch index callback f rs =
    let (w, effects) = turns (watch_round index callback) (start_watch f) rs in
    (record f { last_change_index = w.last_change }, effects)

-- `JobFirehose` starts a goroutine for the id of each job.
abbrev pub job_name : String
job_name = "jobs"

unfoldable pub watch_job_list : Stub → String
watch_job_list job = job.id

abbrev pub job_runner : Runner
job_runner = record {
  State = FirehoseBase;
  name = job_name;
  set_restore_value = set_restore_value;
  update = update;
}

-- `JobListStubFirehose` publishes the job as the list has it.
abbrev pub job_list_stub_name : String
job_list_stub_name = "jobliststub"

unfoldable pub watch_job_list_stub : (JobListStub → Option Bytes) → JobListStub → Bytes
unfolding publish
watch_job_list_stub marshal job = publish marshal job

abbrev pub job_list_stub_runner : Runner
job_list_stub_runner = record {
  State = FirehoseBase;
  name = job_list_stub_name;
  set_restore_value = set_restore_value;
  update = update;
}
