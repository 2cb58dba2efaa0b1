-- ===== src/Command/Persist.antt =====
-- `persistLastChangeTime` of the firehoses: a goroutine that sends the last change to the manager, beside
-- the watcher, which moves the last change on, and the manager, which takes what was sent.
pub mod Laws
use nomad_firehose.Base.{◌≡◌, Bool, true, false, List, [], ◌∷◌, ◌++◌, Option, none, some}
use nomad_firehose.Base.Order.{Order}

-- The field for the last change, the value that the goroutine has read and not yet sent, the channel,
-- which has room for one value, the values that the manager took, in order, and whether `stopCh` is
-- closed.
pub record Saver {ℓ} (K : Type ℓ) : Type ℓ where
  pub last_change : K
  pub holding : Option K
  pub channel : Option K
  pub taken : List K
  pub stopped : Bool

abbrev pub restored {ℓ} : {K : Type ℓ} → K → Saver K
restored k = record { last_change = k; holding = none; channel = none; taken = []; stopped = false }

module _ {ℓ} {K : Type ℓ} ⦃o : Order K⦄ where
  -- What may happen next, for the firehoses whose watcher only raises the last change: all but the one of
  -- evaluations, which takes any `LastIndex` over. The case `<-f.stopCh` sends too, and its `break` leaves the
  -- `select` alone, so the goroutine goes on.
  pub data Step (s : Saver K) : Saver K → Type ℓ where
    rise : (k : K) → o.leq s.last_change k ≡ true → Step s (record s { last_change = k })
    tick : s.holding ≡ none → Step s (record s { holding = some s.last_change })
    see_stop :
        s.holding ≡ none → s.stopped ≡ true → Step s (record s { holding = some s.last_change })
    send :
        (k : K)
        → s.holding ≡ some k
        → s.channel ≡ none
        → Step s (record s { holding = none; channel = some k })
    take :
        (k : K)
        → s.channel ≡ some k
        → Step s (record s { channel = none; taken = s.taken ++ k ∷ [] })
    stop : Step s (record s { stopped = true })

  -- The states after a restore of `k`.
  pub data Reach (k : K) : Saver K → Type ℓ where
    begin : Reach k (restored k)
    go_on : {s t : Saver K} → Reach k s → Step s t → Reach k t
