-- ===== src/Program.antt =====
-- main.go: the commands, each of which runs the manager for a new firehose, and the format of the log. The
-- library `cli` looks a command up and calls its action; it is not modelled.
pub mod Laws
use text.Mathlib.Text.{◌==◌ as str_eq}
use mathlib.Core.Option
use nomad_firehose.Base.{Option, Bool, true, false, List, [], ◌∷◌, String, if◌then◌else◌}
use nomad_firehose.Helper.Runner.{Runner}
use nomad_firehose.Command.Allocations
use nomad_firehose.Command.Nodes
use nomad_firehose.Command.Evaluations
use nomad_firehose.Command.Deployments
use nomad_firehose.Command.Jobs
use nomad_firehose.Command.Lifecycle.{Package}
use nomad_firehose.Command.Made.{Made, made, refused, ended}

-- `app.Commands`: the name of each command, the package whose firehose it makes, and that firehose as the
-- manager runs it.
abbrev pub commands : List (String × (Package × Runner))
commands =
    ("allocations", (Package.allocations, Allocations.runner))
    ∷ ("nodes", (Package.nodes, Nodes.runner))
    ∷ ("evaluations", (Package.evaluations, Evaluations.runner))
    ∷ ("jobs", (Package.jobs, Jobs.job_runner))
    ∷ ("jobliststubs", (Package.jobs, Jobs.job_list_stub_runner))
    ∷ ("deployments", (Package.deployments, Deployments.runner))
    ∷ []

-- How an action ends: `log.Fatal` ends the process.
pub data Ending : Type 0 where
  fatal done : Ending

-- An action: the firehose that was made, and did `manager.Start` return without an error.
unfoldable pub action : Made → (started : Bool) → Ending
action (made _) true = done
action (made _) false = fatal
action refused _ = fatal
action ended _ = fatal

pub data Formatter : Type 0 where
  plain_text json seatgeek_json gelf : Formatter

-- What `app.Before` makes of `log-format`: the logger starts with the text format, and each test that
-- holds sets another.
unfoldable pub formatter : String → Formatter
formatter format =
    let first = if str_eq format "json" then json else plain_text in
    let second = if str_eq format "seatgeek-json" then seatgeek_json else first in
    if str_eq format "gelf" then gelf else second

-- `app.Before`: the level as the log library reads it, where an error ends the process, and the format.
unfoldable pub before :
    {Level : Type 0} → (String → Option Level) → String → String → Option (Level × Formatter)
before parse_level level format = Option.map (λ l. (l, formatter format)) (parse_level level)
