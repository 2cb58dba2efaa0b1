-- ===== src/Helper/Runner.antt =====
-- The interface `Runner` of helper/manager.go, as far as it passes values: `Start` and `Stop` are
-- effects that the manager records.
use nomad_firehose.Base.{Option, String}
use nomad_firehose.Go.Value.{Value}

pub record Runner : Type 1 where
  pub State : Type 0
  pub name : String
  -- `none` is an error.
  pub set_restore_value : Value → State → Option State
  -- What the runner sends on `UpdateCh`.
  pub update : State → Value
