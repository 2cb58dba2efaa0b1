-- ===== src/Sink/Start.antt =====
-- What `Start` of the sinks in sink/* has made by the time it waits for `stopCh`.
use nomad_firehose.Base.{ℕ, zero, suc, ◌+◌, ◌≡◌, refl, Bool, List, [], ◌∷◌, length, arith}
use nomad_firehose.Base.Int.{ℤ, pos_part}

-- What the loop of `Stop` comes to at one look at the channel: it finds messages and sleeps, or it goes on
-- to `close(s.stopCh)`, which panics when `stopCh` is closed.
pub data Look {ℓ} (S : Type ℓ) : Type ℓ where
  waits panics : Look S
  passes : S → Look S

-- What follows the close.
abbrev pub map_look {ℓ κ} : {S : Type ℓ} {T : Type κ} → (S → T) → Look S → Look T
map_look f waits = waits
map_look f panics = panics
map_look f (passes s) = passes (f s)

-- The numbers of the goroutines that take messages, is there one that makes batches, and does `Start`
-- wait or return at once.
pub record Started : Type 0 where
  pub writers : List ℕ
  pub batches : Bool
  pub waits : Bool

-- `for i := 0; i < workerCount; i++ { go ...(i) }`: the rounds that are left, and `i`.
ids_from : ℕ → ℕ → List ℕ
ids_from zero i = []
ids_from (suc n) i = i ∷ ids_from n (i + 1)

-- No round is made for a count that is not positive.
unfoldable pub worker_ids : ℤ → List ℕ
unfolding ids_from
worker_ids count = ids_from (pos_part count) 0

length-ids_from : (n i : ℕ) → length (ids_from n i) ≡ n
unfolding ids_from
length-ids_from zero i = refl
length-ids_from (suc n) i = omega (arith, length-ids_from n (i + 1))

pub length-worker_ids : (count : ℤ) → length (worker_ids count) ≡ pos_part count
unfolding worker_ids
length-worker_ids count = length-ids_from (pos_part count) 0
