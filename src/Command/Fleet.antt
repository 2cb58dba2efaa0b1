-- ===== src/Command/Fleet.antt =====
-- Processes of a firehose as a whole: the manager restores the shared value and writes it, the watcher
-- takes the answers of Nomad, and the goroutine of persistLastChangeTime saves beside it. What differs
-- between command/nodes, command/deployments and command/jobs is an interface.
pub mod Laws
pub mod Watchers
use nomad_firehose.Base.{ℕ, ◌≡◌, ◌⊎◌, List, [], ◌∷◌, ◌++◌, map, Option, none, some}
use nomad_firehose.Base.Order.{index_order}
use nomad_firehose.Go.Value.{Bytes}
use nomad_firehose.Helper.Runner.{Runner}
use nomad_firehose.Helper.Manager.{render, restore_from}
use nomad_firehose.Command.Nomad.{Stub}
use nomad_firehose.Command.Watch.{Response, Watch, round}
use nomad_firehose.Command.Persist
use nomad_firehose.Command.Persist.{Saver, restored}
use nomad_firehose.Command.Delivery.{index_of, start_at}
use nomad_firehose.Command.Cluster.{Member, Cluster, Answers}
use nomad_firehose.Command.Cluster.Laws.{Numbered}

-- A firehose with its watcher: the state at an index, the start of `watch`, one turn of it with what it
-- starts, and what that is for one item; the laws say that the turn is that of the shared loop.
pub record Watcher : Type 1 where
  pub runner : Runner
  pub at : ℕ → runner.State
  pub Effect : Type 0
  pub start_watch : runner.State → Watch ℕ
  pub watch_round : Watch ℕ → Response Stub → Watch ℕ × List Effect
  pub handle : Stub → Effect
  pub numbered : Numbered runner at
  pub start_watch-at : (k : ℕ) → start_watch (at k) ≡ start_at k
  pub watch_round-round :
      (w : Watch ℕ) (r : Response Stub)
      → watch_round w r ≡ ((round index_of w r).0, map handle (round index_of w r).1)

module _ (v : Watcher) where
  -- A process: the index that it was restored to, the answers that came, the variables of `watch`, what the
  -- watcher has done for items, and the goroutine that saves.
  pub record Process : Type 0 where
    pub from : ℕ
    pub answers : List (Response Stub)
    pub watch : Watch ℕ
    pub effects : List v.Effect
    pub saver : Saver ℕ

  unfoldable pub start : ℕ → Process
  start k = record {
    from = k;
    answers = [];
    watch = v.start_watch (v.at k);
    effects = [];
    saver = restored k;
  }

  -- A turn of `watch` for an answer.
  unfoldable pub turn : Process → Response Stub → Process
  turn p r =
      let (w, done) = v.watch_round p.watch r in
      record p {
        answers = p.answers ++ r ∷ [];
        watch = w;
        effects = p.effects ++ done;
        saver = record p.saver { last_change = w.last_change };
      }

  -- What the manager takes from the channel of the process.
  unfoldable pub take : Process → ℕ → Process
  take p k = record p { saver = record p.saver { channel = none; taken = p.saver.taken ++ k ∷ [] } }

  pub record Fleet : Type 0 where
    pub stored : Option Bytes
    pub processes : List Process

  abbrev pub member : Process → Member
  member p = record { from = p.from; saver = p.saver }

  -- The processes without their watchers.
  abbrev pub cluster : Fleet → Cluster
  cluster f = record { stored = f.stored; members = map member f.processes }

  -- A term begins; the watcher of a process takes an answer; its goroutine that saves goes on, or its
  -- manager takes a value that is not written; or the manager takes a value and writes it.
  pub data Step (f : Fleet) : Fleet → Type 0 where
    begin_term :
        (answer : Option (Option Bytes)) (st0 : v.runner.State) (k : ℕ)
        → Answers (cluster f) answer
        → v.runner.set_restore_value (restore_from answer) st0 ≡ some (v.at k)
        → Step f (record f { processes = f.processes ++ start k ∷ [] })
    answered :
        (xs ys : List Process) (p : Process) (r : Response Stub)
        → f.processes ≡ xs ++ p ∷ ys
        → Step f (record f { processes = xs ++ turn p r ∷ ys })
    go_on :
        (xs ys : List Process) (p : Process) {s : Saver ℕ}
        → f.processes ≡ xs ++ p ∷ ys
        → Persist.Step p.saver s
        → s.last_change ≡ p.saver.last_change
        → Step f (record f { processes = xs ++ record p { saver = s } ∷ ys })
    save :
        (xs ys : List Process) (p : Process) (k : ℕ) (text : Bytes)
        → f.processes ≡ xs ++ p ∷ ys
        → p.saver.channel ≡ some k
        → render (v.runner.update (v.at k)) ≡ some text
        → Step f (record { stored = some text; processes = xs ++ take p k ∷ ys })

  pub data Reach : Fleet → Type 0 where
    begin : Reach (record { stored = none; processes = [] })
    more : {f g : Fleet} → Reach f → Step f g → Reach g
