-- ===== src/Command/Cluster.antt =====
-- Processes of one firehose, of nodes, deployments or jobs, that share the value in Consul, whatever the lock does: some lead at the same
-- time, some end without a word. What a process does to its own state is `Persist`; here its manager, of
-- helper/manager.go, restores the value and writes it.
pub mod Gaps
pub mod Laws
pub mod Runners
use nomad_firehose.Base.{ℕ, ◌≡◌, ◌≤◌, ◌<◌, ◌⊎◌, List, [], ◌∷◌, ◌++◌, Option, none, some}
use nomad_firehose.Base.Order.{index_order}
use nomad_firehose.Go.Value.{Bytes}
use nomad_firehose.Helper.Runner.{Runner}
use nomad_firehose.Helper.Manager.{render, restore_from}
use nomad_firehose.Command.Persist
use nomad_firehose.Command.Persist.{Saver, restored}

-- A process: the index that it was restored to, and its goroutine that saves.
pub record Member : Type 0 where
  pub from : ℕ
  pub saver : Saver ℕ

-- The value under the key, and the processes that have been started, from the oldest.
pub record Cluster : Type 0 where
  pub stored : Option Bytes
  pub members : List Member

abbrev pub no_process : Cluster
no_process = record { stored = none; members = [] }

-- What `KV().Get` can answer: an error, or what is stored.
abbrev pub Answers : Cluster → Option (Option Bytes) → Type 0
Answers c answer = (answer ≡ none) ⊎ (answer ≡ some c.stored)

module _ (r : Runner) (at : ℕ → r.State) where
  -- A term begins; a process moves on, where a value that its manager takes is not written, or not yet, as
  -- the error of `Put` is only logged; or its manager takes a value and writes it.
  pub data Step (c : Cluster) : Cluster → Type 0 where
    begin_term :
        (answer : Option (Option Bytes)) (st0 : r.State) (k : ℕ)
        → Answers c answer
        → r.set_restore_value (restore_from answer) st0 ≡ some (at k)
        → Step c (record c { members = c.members ++ record { from = k; saver = restored k } ∷ [] })
    move :
        (xs ys : List Member) (m : Member) {s : Saver ℕ}
        → c.members ≡ xs ++ m ∷ ys
        → Persist.Step m.saver s
        → Step c (record c { members = xs ++ record m { saver = s } ∷ ys })
    save :
        (xs ys : List Member) (m : Member) (k : ℕ) (text : Bytes)
        → c.members ≡ xs ++ m ∷ ys
        → m.saver.channel ≡ some k
        → render (r.update (at k)) ≡ some text
        → Step c (record {
          stored = some text;
          members =
              xs
              ++ record m {
                saver = record m.saver { channel = none; taken = m.saver.taken ++ k ∷ [] };
              }
                ∷ ys;
        })

  pub data Reach : Cluster → Type 0 where
    begin : Reach no_process
    go_on : {c d : Cluster} → Reach c → Step c d → Reach d
