-- ===== src/Command/Lifecycle.antt =====
-- `stopCh` of the firehoses under command/: `NewFirehose`, `Start` and `Stop` as the manager calls them,
-- one of each for each term of leadership.
use nomad_firehose.Base.{
  ℕ, suc, ◌≡◌, refl, Bool, true, false, List, [], ◌∷◌, Option, none, some, ◌+◌, ◌≤◌, arith, not,
  is_some,
}
use mathlib.Core.Option

-- A channel is `nil`, open or closed.
pub data Channel : Type 0 where
  nil open_ closed : Channel

pub data Call : Type 0 where
  start stop : Call

-- The package of a firehose.
pub data Package : Type 0 where
  allocations nodes deployments evaluations jobs : Package

-- `stopCh` after `NewFirehose`, which leaves it out for deployments.
unfoldable pub new_stop_ch : Package → Channel
new_stop_ch deployments = nil
new_stop_ch _ = open_

-- `Start` makes a new channel, but for jobs.
unfoldable pub start_stop_ch : Package → Channel → Channel
start_stop_ch jobs ch = ch
start_stop_ch _ ch = open_

-- `close(f.stopCh)`; it panics (`none`) on `nil` and on a closed channel.
unfoldable pub stop_stop_ch : Channel → Option Channel
stop_stop_ch open_ = some closed
stop_stop_ch _ = none

unfoldable pub calls : Package → Channel → List Call → Option Channel
unfolding start_stop_ch stop_stop_ch
calls p ch [] = some ch
calls p ch (start ∷ cs) = calls p (start_stop_ch p ch) cs
calls p ch (stop ∷ cs) = elim (stop_stop_ch ch) [ none ↦ none | some ch' ↦ calls p ch' cs ]

-- The manager calls `Start` in a goroutine of its own and `Stop` at the end of the term, so the two come in
-- either order, and a late `Start` may even come in a later term: what counts is how often `Stop` is called.
abbrev pub stops : List Call → ℕ
stops [] = 0
stops (start ∷ cs) = stops cs
stops (stop ∷ cs) = suc (stops cs)

-- Is the channel made before the first `Stop`? It is not for deployments, if `Stop` comes first.
abbrev pub is_made : Package → List Call → Bool
is_made deployments (stop ∷ cs) = false
is_made _ _ = true

-- Does `Start` of the package make a new channel?
abbrev pub makes_new : Package → Bool
makes_new jobs = false
makes_new _ = true

start_stop_ch-open : (p : Package) → start_stop_ch p open_ ≡ open_
unfolding start_stop_ch
start_stop_ch-open allocations = refl
start_stop_ch-open nodes = refl
start_stop_ch-open deployments = refl
start_stop_ch-open evaluations = refl
start_stop_ch-open jobs = refl

no_stop_passes :
    (p : Package) (ch : Channel) (cs : List Call) → stops cs ≤ 0 → is_some (calls p ch cs) ≡ true
unfolding calls
no_stop_passes p ch [] h = refl
no_stop_passes p ch (start ∷ cs) h = no_stop_passes p (start_stop_ch p ch) cs h
no_stop_passes p ch (stop ∷ cs) h = absurd (omega arith)

one_stop_passes : (p : Package) (cs : List Call) → stops cs ≤ 1 → is_some (calls p open_ cs) ≡ true
unfolding calls stop_stop_ch
one_stop_passes p [] h = refl
one_stop_passes p (start ∷ cs) h = rw (start_stop_ch-open p) (one_stop_passes p cs h)
one_stop_passes p (stop ∷ cs) h = no_stop_passes p closed cs (omega arith)

-- With one `Stop` at most, from the channel that `NewFirehose` makes, only a `Stop` of deployments before
-- every `Start` panics.
pub first_stop :
    (p : Package) (cs : List Call)
    → stops cs ≤ 1
    → is_some (calls p (new_stop_ch p) cs) ≡ is_made p cs
unfolding calls new_stop_ch start_stop_ch stop_stop_ch
first_stop allocations cs h = one_stop_passes allocations cs h
first_stop nodes cs h = one_stop_passes nodes cs h
first_stop deployments [] h = refl
first_stop deployments (start ∷ cs) h = one_stop_passes deployments cs h
first_stop deployments (stop ∷ cs) h = refl
first_stop evaluations cs h = one_stop_passes evaluations cs h
first_stop jobs cs h = one_stop_passes jobs cs h

closed_stop_panics : (cs : List Call) → 1 ≤ stops cs → calls jobs closed cs ≡ none
unfolding calls start_stop_ch stop_stop_ch
closed_stop_panics [] h = absurd (omega arith)
closed_stop_panics (start ∷ cs) h = closed_stop_panics cs h
closed_stop_panics (stop ∷ cs) h = refl

-- A firehose of jobs panics once its `Stop` is called twice, whatever its channel was, and
-- however often and when its `Start` is called in between: `Start` does not make a new channel,
-- so `Stop` closes a closed one.
pub jobs_two_stops : (ch : Channel) (cs : List Call) → 2 ≤ stops cs → calls jobs ch cs ≡ none
unfolding calls start_stop_ch stop_stop_ch
jobs_two_stops ch [] h = absurd (omega arith)
jobs_two_stops ch (start ∷ cs) h = jobs_two_stops ch cs h
jobs_two_stops nil (stop ∷ cs) h = refl
jobs_two_stops open_ (stop ∷ cs) h = closed_stop_panics cs (omega arith)
jobs_two_stops closed (stop ∷ cs) h = refl

-- The goroutines of a firehose beside its channel: those of `watch` and `persistLastChangeTime`, and does
-- the `Start` of the term wait for the channel.
pub record Running : Type 0 where
  pub stop_ch : Channel
  pub watchers : ℕ
  pub savers : ℕ
  pub waiting : Bool

abbrev pub is_closed : Channel → Bool
is_closed closed = true
is_closed _ = false

-- `Start` makes two goroutines, and waits, unless the channel is closed.
unfoldable pub start_firehose : Package → Running → Running
unfolding start_stop_ch
start_firehose p r =
    let ch = start_stop_ch p r.stop_ch in
    record {
      stop_ch = ch;
      watchers = r.watchers + 1;
      savers = r.savers + 1;
      waiting = not (is_closed ch);
    }

-- `Stop` closes the channel. Only `Start` returns for it: `watch` does not look at it, and the `break` of
-- `persistLastChangeTime` does not end its loop.
unfoldable pub stop_firehose : Running → Option Running
unfolding stop_stop_ch
stop_firehose r =
    Option.map (λ ch. record r { stop_ch = ch; waiting = false }) (stop_stop_ch r.stop_ch)

-- When `Stop` comes before the `Start` of its term, for a package that makes a new channel, `Start` waits for
-- a channel that the term does not close any more, and its watcher and saver run.
late_start_waits :
    (p : Package) (r : Running)
    → makes_new p ≡ true
    → r.stop_ch ≡ open_
    → Option.map (start_firehose p) (stop_firehose r)
      ≡ some (record {
        stop_ch = open_;
        watchers = r.watchers + 1;
        savers = r.savers + 1;
        waiting = true;
      })
unfolding start_firehose stop_firehose stop_stop_ch start_stop_ch
late_start_waits allocations r h o = rw o refl
late_start_waits nodes r h o = rw o refl
late_start_waits deployments r h o = rw o refl
late_start_waits evaluations r h o = rw o refl
late_start_waits jobs r h o = cc
