-- ===== src/Command/Restart.antt =====
-- The firehoses as runners of the manager: what they accept, and what they resume from.
use nomad_firehose.Base.{ℕ, ◌^◌, ◌≤◌, ◌<◌, ◌≡◌, refl, some, true, [], ◌∷◌, arith, String}
use nomad_firehose.Base.Int.{pos}
use nomad_firehose.Go.Value.{uint64, IsInt64, to_uint64}
use nomad_firehose.Go.Strconv.{format_uint, format_int, range}
use nomad_firehose.Go.Strconv.RoundTrip.{
  parse_int-format_uint, parse_int-format_uint_range, parse_int-format_int,
}
use nomad_firehose.Helper.Consul.{Consul}
use nomad_firehose.Helper.Manager.{restore, render, lead, updated}
use nomad_firehose.Helper.Manager.Terms.{Fits, Resumes, lead_one, restore_unreadable}
use nomad_firehose.Command.Nodes
use nomad_firehose.Command.Deployments
use nomad_firehose.Command.Jobs
use nomad_firehose.Command.Evaluations
use nomad_firehose.Command.Allocations

Allocations-Fits : Fits Allocations.runner
unfolding Allocations.set_restore_value Allocations.update render
Allocations-Fits = record {
  from_zero = λ st. (_, refl);
  from_int64 = λ v st. (_, refl);
  sends = λ st. (_, refl);
}

Nodes-Fits : Fits Nodes.runner
unfolding Nodes.set_restore_value Nodes.update render
Nodes-Fits = record {
  from_zero = λ st. (_, refl);
  from_int64 = λ v st. (_, refl);
  sends = λ st. (_, refl);
}

Deployments-Fits : Fits Deployments.runner
unfolding Deployments.set_restore_value Deployments.update render
Deployments-Fits = record {
  from_zero = λ st. (_, refl);
  from_int64 = λ v st. (_, refl);
  sends = λ st. (_, refl);
}

Evaluations-Fits : Fits Evaluations.runner
unfolding Evaluations.set_restore_value Evaluations.update render
Evaluations-Fits = record {
  from_zero = λ st. (_, refl);
  from_int64 = λ v st. (_, refl);
  sends = λ st. (_, refl);
}

job-Fits : Fits Jobs.job_runner
unfolding Jobs.set_restore_value Jobs.update render
job-Fits = record {
  from_zero = λ st. (_, refl);
  from_int64 = λ v st. (_, refl);
  sends = λ st. (_, refl);
}

job_list_stub-Fits : Fits Jobs.job_list_stub_runner
unfolding Jobs.set_restore_value Jobs.update render
job_list_stub-Fits = record {
  from_zero = λ st. (_, refl);
  from_int64 = λ v st. (_, refl);
  sends = λ st. (_, refl);
}

-- The runners of all six firehoses start from 0 and from any `int64` that the manager restores,
-- and their updates are of a type that it can write.
pub runners_fit :
    Fits Allocations.runner
    × Fits Nodes.runner
    × Fits Deployments.runner
    × Fits Evaluations.runner
    × Fits Jobs.job_runner
    × Fits Jobs.job_list_stub_runner
runners_fit =
    (Allocations-Fits, Nodes-Fits, Deployments-Fits, Evaluations-Fits, job-Fits, job_list_stub-Fits)

-- For a last change time in the range of `int64`, negative ones included, the allocations
-- firehose comes back to it from the text that the manager writes of its update.
pub Allocations-Resumes :
    (f : Allocations.Firehose)
    → IsInt64 f.last_change_time
    → Resumes Allocations.runner f (format_int f.last_change_time)
unfolding Allocations.set_restore_value Allocations.update render
Allocations-Resumes f h = record {
  value = f.last_change_time;
  rendered = refl;
  read_back = parse_int-format_int f.last_change_time h;
  restored = λ st0. refl;
}

-- An index below 2^63 keeps its value on its way through `int64`.
to_uint64-pos : (n : ℕ) → n < 2 ^ 63 → to_uint64 (pos n) ≡ n
unfolding to_uint64
to_uint64-pos n h = omega arith

-- For a last change index below 2^63, the nodes firehose comes back to it from the text that the
-- manager writes of its update.
pub Nodes-Resumes :
    (f : Nodes.Firehose)
    → f.last_change_index < 2 ^ 63
    → Resumes Nodes.runner f (format_uint f.last_change_index)
unfolding Nodes.set_restore_value Nodes.update render
Nodes-Resumes f h = record {
  value = pos f.last_change_index;
  rendered = refl;
  read_back = parse_int-format_uint f.last_change_index h;
  restored = λ st0. rw (to_uint64-pos f.last_change_index h);
}

pub Deployments-Resumes :
    (f : Deployments.Firehose)
    → f.last_change_time < 2 ^ 63
    → Resumes Deployments.runner f (format_uint f.last_change_time)
unfolding Deployments.set_restore_value Deployments.update render
Deployments-Resumes f h = record {
  value = pos f.last_change_time;
  rendered = refl;
  read_back = parse_int-format_uint f.last_change_time h;
  restored = λ st0. rw (to_uint64-pos f.last_change_time h);
}

pub Evaluations-Resumes :
    (f : Evaluations.Firehose)
    → f.last_change_index < 2 ^ 63
    → Resumes Evaluations.runner f (format_uint f.last_change_index)
unfolding Evaluations.set_restore_value Evaluations.update render
Evaluations-Resumes f h = record {
  value = pos f.last_change_index;
  rendered = refl;
  read_back = parse_int-format_uint f.last_change_index h;
  restored = λ st0. rw (to_uint64-pos f.last_change_index h);
}

pub Jobs-Resumes :
    (f : Jobs.FirehoseBase)
    → f.last_change_index < 2 ^ 63
    → Resumes Jobs.job_runner f (format_uint f.last_change_index)
unfolding Jobs.set_restore_value Jobs.update render
Jobs-Resumes f h = record {
  value = pos f.last_change_index;
  rendered = refl;
  read_back = parse_int-format_uint f.last_change_index h;
  restored = λ st0. rw (to_uint64-pos f.last_change_index h);
}

-- When the last change index of the nodes firehose is at least 2^63 and below 2^64, and the
-- manager puts its update into Consul without an error, the next restore cannot read the value,
-- and the firehose starts from 0 instead.
pub Nodes_overflow :
    (c : Consul) (key : String) (s : c.Store) (f st0 : Nodes.Firehose)
    → 2 ^ 63 ≤ f.last_change_index
    → f.last_change_index < 2 ^ 64
    → (c.put s key (format_uint f.last_change_index)).1 ≡ true
    → let s' = (lead c key s (updated (Nodes.update f) ∷ [])).0 in
      Nodes.set_restore_value (restore c s' key) st0 ≡ some (record { last_change_index = 0 })
unfolding Nodes.update Nodes.set_restore_value to_uint64 render
Nodes_overflow c key s f st0 lo hi ok =
    rw
      (
        lead_one c key s (uint64 f.last_change_index) (format_uint f.last_change_index) refl,
        restore_unreadable c _ key (format_uint f.last_change_index) _ range
            (c.get-put s key (format_uint f.last_change_index) ok)
            (parse_int-format_uint_range f.last_change_index lo hi),
      )
      refl
