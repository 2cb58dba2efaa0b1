-- ===== src/Helper/Manager.antt =====
-- helper/manager.go. The lock of Consul answers as the environment says; what comes in on the
-- channels of a term of leadership is a list of events, in the order in which `select` takes them.
pub mod Keys
pub mod Terms
use Prim.Native.Char.{code}
use Prim.Native.String
use nomad_firehose.Base.{
  ℕ, ◌≡◌, Bool, true, false, Option, none, some, List, [], ◌∷◌, ◌++◌, String, ◌==◌, if◌then◌else◌,
}
use nomad_firehose.Base.Int.{ℤ, pos}
use nomad_firehose.Go.Value.{Value, int, int64, uint64, string, other, Bytes}
use nomad_firehose.Go.Strconv.{Parsed, format_int, format_uint, parse_int}
use nomad_firehose.Helper.Runner.{Runner}
use nomad_firehose.Helper.Consul.{Consul}

-- `strings.TrimSuffix(v, "/")`.
unfoldable pub trim_slash : String → String
trim_slash String.[] = ""
trim_slash (String.◌∷◌ c String.[]) = if code c == b'/' then "" else String.◌∷◌ c ""
trim_slash (String.◌∷◌ c (String.◌∷◌ d s)) = String.◌∷◌ c (trim_slash (String.◌∷◌ d s))

-- The prefix of `NewManager`, from `LookupEnv("NOMAD_FIREHOSE_CONSUL_PREFIX")`.
unfoldable pub consul_prefix : Option String → String
unfolding trim_slash
consul_prefix none = "nomad-firehose"
consul_prefix (some v) = trim_slash v

-- The keys that `Sprintf` makes with "%s/%s.value" and "%s/%s.lock".
unfoldable pub value_key : String → String → String
value_key prefix name = String.◌++◌ prefix (String.◌++◌ "/" (String.◌++◌ name ".value"))

unfoldable pub lock_key : String → String → String
lock_key prefix name = String.◌++◌ prefix (String.◌++◌ "/" (String.◌++◌ name ".lock"))

-- The text of an update, or `none` for a type that the switch does not know.
unfoldable pub render : Value → Option Bytes
render (int v) = some (format_int v)
render (int64 v) = some (format_int v)
render (uint64 n) = some (format_uint n)
render _ = none

-- What came in on a channel: an update of the runner, the closing of `stopCh`, a message on the lock
-- error channel or its closing, the closing of `voluntarilyReleaseLockCh`.
pub data Event : Type 0 where
  updated : Value → Event
  stopped lock_noted lock_lost released : Event

-- How a term of leadership ends: without an error, or with one.
pub data Exit : Type 0 where
  clean unknown_update lost_lock : Exit

-- What the manager does to the runner and the lock, in order.
pub data Action : Type 0 where
  locked runner_started runner_stopped unlocked : Action

-- How `acquireConsulLeadership` returns: without the lock, with the lock but with no term, or from
-- the loop.
pub data Outcome : Type 0 where
  no_options no_lock bad_restore : Outcome
  led : Exit → Outcome

-- What the lock answers: are its options accepted, is it acquired.
pub record LockAnswers : Type 0 where
  pub options_ok : Bool
  pub lock_ok : Bool

unfoldable pub restore_parsed : Parsed ℤ → Value
restore_parsed p = elim p.error [ some _ ↦ int (pos 0) | none ↦ int64 p.value ]

unfoldable pub restore_from : Option (Option Bytes) → Value
unfolding restore_parsed
restore_from none = int (pos 0)
restore_from (some none) = int (pos 0)
restore_from (some (some sv)) = restore_parsed (parse_int sv)

-- The deferred function stops the runner and unlocks, once the loop has ended.
unfoldable pub deferred : Option Exit → List Action
deferred none = []
deferred (some _) = runner_stopped ∷ unlocked ∷ []

unfoldable pub result_of : Option Exit → Option Outcome
result_of none = none
result_of (some e) = some (led e)

module _ (consul : Consul) where
  open consul use {Store, get, put}

  -- `restoreLastChangeTime`: the value to start from, 0 for anything that is missing or wrong.
  unfoldable pub restore : Store → String → Value
  unfolding restore_from restore_parsed
  restore s key = restore_from (get s key)

  -- The loop "Wait for changes to Consul Lock". An error of `Put` is logged. No exit yet means that
  -- the loop waits for more.
  unfoldable pub lead : String → Store → List Event → Store × Option Exit
  lead key s [] = (s, none)
  lead key s (updated v ∷ es) = elim (render v) [
    | none ↦ (s, some unknown_update)
    | some r ↦ lead key (put s key r).0 es
  ]
  lead key s (stopped ∷ es) = (s, some clean)
  lead key s (lock_noted ∷ es) = lead key s es
  lead key s (lock_lost ∷ es) = (s, some lost_lock)
  lead key s (released ∷ es) = (s, some clean)

  -- A term of leadership: what was done, the store, the runner's state at its start, and how
  -- `acquireConsulLeadership` returned, if it did.
  pub record Term (S : Type 0) : Type 0 where
    pub actions : List Action
    pub store : Store
    pub state : S
    pub result : Option Outcome

  -- `acquireConsulLeadership`, for a runner in state `st`.
  unfoldable pub acquire :
      (r : Runner) → String → LockAnswers → Store → r.State → List Event → Term r.State
  unfolding deferred result_of
  acquire r prefix lock s st es =
      if lock.options_ok
      then if lock.lock_ok
        then elim (r.set_restore_value (restore s (value_key prefix r.name)) st) [
          | none ↦ record {
            actions = locked ∷ [];
            store = s;
            state = st;
            result = some bad_restore;
          }
          | some st' ↦
              let (s', exit) = lead (value_key prefix r.name) s es in
              record {
                actions = locked ∷ runner_started ∷ deferred exit;
                store = s';
                state = st';
                result = result_of exit;
              }
        ]
        else record { actions = []; store = s; state = st; result = some no_lock }
      else record { actions = []; store = s; state = st; result = some no_options }
