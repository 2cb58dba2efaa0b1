-- ===== src/Command/Deployments.antt =====
-- command/deployments/app.go.
use nomad_firehose.Base.{ℕ, map, List, Option, none, some, String}
use nomad_firehose.Go.Value.{Value, int, int64, uint64, string, to_uint64}
use nomad_firehose.Go.Strconv.{parse_int}
use nomad_firehose.Base.Order.{index_order}
use nomad_firehose.Helper.Runner.{Runner}
use nomad_firehose.Command.Nomad.{Stub}
use nomad_firehose.Command.Watch.{Response, Watch, round, turns}

pub record Firehose : Type 0 where
  pub last_change_time : ℕ  -- uint64

abbrev pub name : String
name = "deployments"

-- The error of `Atoi` is ignored: its value is taken with or without one.
unfoldable pub set_restore_value : Value → Firehose → Option Firehose
unfolding to_uint64 parse_int
set_restore_value (int v) f = some (record f { last_change_time = to_uint64 v })
set_restore_value (int64 v) f = some (record f { last_change_time = to_uint64 v })
set_restore_value (string s) f =
    some (record f { last_change_time = to_uint64 (parse_int s).value })
set_restore_value _ f = none

-- What `persistLastChangeTime` sends.
unfoldable pub update : Firehose → Value
update f = uint64 f.last_change_time

-- The variables at the start of `watch`.
unfoldable pub start_watch : Firehose → Watch ℕ
start_watch f = record {
  wait_index = f.last_change_time;
  new_max = f.last_change_time;
  last_change = f.last_change_time;
}

-- One turn of `watch`, with the ids that it starts a goroutine for.
unfoldable pub watch_round : Watch ℕ → Response Stub → Watch ℕ × List String
unfolding round
watch_round w r = let (w', found) = round (λ s. s.modify_index) w r in (w', map (λ s. s.id) found)

-- `watch`, for the answers that come: the firehose after them, and the ids that it starts a goroutine for.
unfoldable pub watch : Firehose → List (Response Stub) → Firehose × List String
unfolding turns
watch f rs =
    let (w, ids) = turns watch_round (start_watch f) rs in
    (record f { last_change_time = w.last_change }, ids)

abbrev pub runner : Runner
runner = record {
  State = Firehose;
  name = name;
  set_restore_value = set_restore_value;
  update = update;
}
