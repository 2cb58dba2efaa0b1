-- ===== src/Command/Watch.antt =====
-- The loop that the watchers of command/ share in shape: keep the items whose change mark is above
-- the last one, remember the highest mark seen. A mark is a `uint64` index or an `int64` time.
pub mod Visit
pub mod Runs
pub mod History
pub mod Keys
use nomad_firehose.Base.{ℕ, List, [], ◌∷◌, ◌++◌, foldl, ◌==◌, if◌then◌else◌, ◌≡◌}
use nomad_firehose.Base.Order.{Order}

-- What an answer of the Nomad API brings: an error, or the items and `meta.LastIndex`.
pub data Response {ℓ} (A : Type ℓ) : Type ℓ where
  failed : Response A
  listed : List A → ℕ → Response A

-- The variables of `watch`: `q.WaitIndex`, `newMax`, and the field for the last change.
pub record Watch {ℓ} (K : Type ℓ) : Type ℓ where
  pub wait_index : ℕ
  pub new_max : K
  pub last_change : K

-- What one pass over the items gathers: `newMax`, and the items that were handled, in order.
pub record Found {ℓ} (K A : Type ℓ) : Type ℓ where
  pub new_max : K
  pub handled : List A

module _ {ℓ} {K A : Type ℓ} ⦃o : Order K⦄ (mark : A → K) where
  -- The body of the loop over the items.
  unfoldable pub visit : K → Found K A → A → Found K A
  visit last st x = if o.leq (mark x) last then st else record {
    new_max = if o.leq (mark x) st.new_max then st.new_max else mark x;
    handled = st.handled ++ x ∷ [];
  }

  -- One turn of the endless loop of `watch`, with the items that it handled.
  unfoldable pub round : Watch K → Response A → Watch K × List A
  unfolding visit
  round w failed = (w, [])
  round w (listed items last_index) =
      if last_index == w.wait_index
      then (w, [])
      else let found =
          foldl (visit w.last_change) (record { new_max = w.new_max; handled = [] }) items in
        (
          record { wait_index = last_index; new_max = found.new_max; last_change = found.new_max },
          found.handled,
        )

  -- Turn after turn, for the answers that come.
  unfoldable pub run : Watch K → List (Response A) → Watch K × List A
  run w [] = (w, [])
  run w (r ∷ rs) = let (w1, out) = round w r in let (w2, rest) = run w1 rs in (w2, out ++ rest)

-- The endless loop of a firehose, with what one turn of it starts for the items that are handled.
unfoldable pub turns {ℓ} :
    {K A E : Type ℓ}
    → (Watch K → Response A → Watch K × List E)
    → Watch K
    → List (Response A)
    → Watch K × List E
turns turn w [] = (w, [])
turns turn w (r ∷ rs) =
    let (w1, out) = turn w r in let (w2, rest) = turns turn w1 rs in (w2, out ++ rest)

-- Between two turns `newMax` is the last change.
abbrev pub IsSettled {ℓ} : {K : Type ℓ} → Watch K → Type ℓ
IsSettled w = w.new_max ≡ w.last_change
