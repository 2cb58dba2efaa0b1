-- ===== src/Command/Publish.antt =====
-- `publish` and `Publish` of the firehoses, and the goroutines that read a resource in full before
-- they publish it.
pub mod Laws
use nomad_firehose.Base.{List, [], ◌∷◌, ◌++◌, map, Option, get_or, ◌≡◌}
use nomad_firehose.Go.Value.{Bytes}

-- `json.Marshal` gives `nil` for the bytes with an error; the error is logged, and the bytes go to
-- the sink all the same.
unfoldable pub publish {ℓ} : {T : Type ℓ} → (T → Option Bytes) → T → Bytes
publish marshal update = get_or (marshal update) []

-- The goroutines that `go func` has started: the ids that wait for their answer, the answers that
-- came, each with its id, and the ids whose request failed.
pub record Fetches {ℓ} (I T : Type ℓ) : Type ℓ where
  pub waiting : List I
  pub answered : List (I × T)
  pub refused : List I

abbrev pub idle {ℓ} : {I T : Type ℓ} → Fetches I T
idle = record { waiting = []; answered = []; refused = [] }

module _ {ℓ} {I T : Type ℓ} where
  -- Any goroutine may go on next.
  pub data Step (s : Fetches I T) : Fetches I T → Type ℓ where
    answer :
        (xs ys : List I) (i : I) (full : T)
        → s.waiting ≡ xs ++ i ∷ ys
        → Step s (record s { waiting = xs ++ ys; answered = s.answered ++ (i, full) ∷ [] })
    refuse :
        (xs ys : List I) (i : I)
        → s.waiting ≡ xs ++ i ∷ ys
        → Step s (record s { waiting = xs ++ ys; refused = i ∷ s.refused })

  -- The states that the goroutines can be in, with the ids that were started.
  pub data Reach : List I → Fetches I T → Type ℓ where
    begin : Reach [] idle
    start :
        {ids : List I} {s : Fetches I T} (more : List I)
        → Reach ids s
        → Reach (ids ++ more) (record s { waiting = s.waiting ++ more })
    go_on : {ids : List I} {s t : Fetches I T} → Reach ids s → Step s t → Reach ids t

  -- What has gone to the sink.
  unfoldable pub published : (T → Option Bytes) → Fetches I T → List Bytes
  unfolding publish
  published marshal s = map (λ a. publish marshal a.1) s.answered
