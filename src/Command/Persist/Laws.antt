-- ===== src/Command/Persist/Laws.antt =====
-- The order of the values that `persistLastChangeTime` of command/* sends.
use nomad_firehose.Base.{
  ◌≡◌, refl, subst, true, List, [], ◌∷◌, ◌++◌, Option, none, some, append_assoc, append-nil, All,
  All-append, All-left, All-right,
}
use nomad_firehose.Base.Order.{Order}
use nomad_firehose.Command.Persist.{
  Saver, Step, rise, tick, see_stop, send, take, stop, Reach, begin, go_on,
}

abbrev pub to_list {ℓ} : {K : Type ℓ} → Option K → List K
to_list none = []
to_list (some k) = k ∷ []

module _ {ℓ} {K : Type ℓ} ⦃o : Order K⦄ where
  abbrev pub IsRising : List K → Type 0
  IsRising [] = Unit
  IsRising (x ∷ xs) = All (λ y. o.leq x y ≡ true) xs × IsRising xs

  -- The values on their way to the manager, from the oldest, and the last change.
  abbrev pub on_the_way : Saver K → List K
  on_the_way s = s.taken ++ (to_list s.channel ++ to_list s.holding)

  All-end :
      (x a b : K) (xs : List K)
      → o.leq a b ≡ true
      → All (λ y. o.leq x y ≡ true) (xs ++ a ∷ [])
      → o.leq x b ≡ true
  All-end x a b xs le h = o.leq_trans x a b (All-right (λ y. o.leq x y ≡ true) xs (a ∷ []) h).0 le

  IsRising-end :
      (xs : List K) (a b : K) → o.leq a b ≡ true → IsRising (xs ++ a ∷ []) → IsRising (xs ++ b ∷ [])
  IsRising-end [] a b le h = (tt, tt)
  IsRising-end (x ∷ xs) a b le h = (
    All-append (λ y. o.leq x y ≡ true) xs (b ∷ [])
        (All-left (λ y. o.leq x y ≡ true) xs (a ∷ []) h.0) (All-end x a b xs le h.0, tt),
    IsRising-end xs a b le h.1,
  )

  IsRising-twice :
      (xs : List K) (a : K) → IsRising (xs ++ a ∷ []) → IsRising ((xs ++ a ∷ []) ++ a ∷ [])
  IsRising-twice [] a h = ((o.leq_refl a, tt), (tt, tt))
  IsRising-twice (x ∷ xs) a h = (
    All-append (λ y. o.leq x y ≡ true) (xs ++ a ∷ []) (a ∷ []) h.0
        (All-end x a a xs (o.leq_refl a) h.0, tt),
    IsRising-twice xs a h.1,
  )

  hold_same :
      (s : Saver K) (k : K)
      → s.holding ≡ none
      → on_the_way (record s { holding = some k }) ≡ on_the_way s ++ k ∷ []
  hold_same s k e =
      rw (e, append-nil (to_list s.channel), append_assoc s.taken (to_list s.channel) (k ∷ []))

  Step-IsRising :
      (k : K) {s t : Saver K}
      → Step s t
      → IsRising (k ∷ (on_the_way s ++ s.last_change ∷ []))
      → IsRising (k ∷ (on_the_way t ++ t.last_change ∷ []))
  Step-IsRising k {s} (rise l le) h = IsRising-end (k ∷ on_the_way s) s.last_change l le h
  Step-IsRising k {s} (tick e) h =
      rw (hold_same s s.last_change e) (IsRising-twice (k ∷ on_the_way s) s.last_change h)
  Step-IsRising k {s} (see_stop e c) h =
      rw (hold_same s s.last_change e) (IsRising-twice (k ∷ on_the_way s) s.last_change h)
  Step-IsRising k {s} (send l e c) h =
      subst (λ m. IsRising (k ∷ ((s.taken ++ m) ++ s.last_change ∷ []))) (rw (e, c) refl) h
  Step-IsRising k {s} (take l e) h =
      subst (λ m. IsRising (k ∷ (m ++ s.last_change ∷ [])))
        (rw (e, append_assoc s.taken (l ∷ []) (to_list s.holding)) refl) h
  Step-IsRising k stop h = h

  -- In every state that a firehose reaches after a restore, the restored value, the values that
  -- the manager took, the one in the channel, the one that the goroutine holds and the last
  -- change of the watcher never fall, in this order: what is saved never goes back, nor ahead of
  -- the watcher.
  pub saved_rises :
      (k : K) {s : Saver K} → Reach k s → IsRising (k ∷ (on_the_way s ++ s.last_change ∷ []))
  saved_rises k begin = ((o.leq_refl k, tt), (tt, tt))
  saved_rises k (go_on r st) = Step-IsRising k st (saved_rises k r)
