-- ===== src/Command/Publish/Laws.antt =====
-- Where the ids of the goroutines of command/ that read a resource are.
use mathlib.Core.List.{perm_middle, perm_append_comm, map-append}
use mathlib.Core.List.Perm
use nomad_firehose.Base.{List, [], ◌∷◌, ◌++◌, map, Perm, append_assoc}
use nomad_firehose.Command.Publish.{Fetches, Step, answer, refuse, Reach, begin, start, go_on}

-- An item goes from the first part to the front of the last.
move_item {ℓ} :
    {I : Type ℓ} (i : I) (a b c d : List I)
    → Perm ((a ++ i ∷ b) ++ (c ++ d)) ((a ++ b) ++ (c ++ i ∷ d))
move_item i a b c d = Perm.trans (Perm.append_right (c ++ d) (perm_middle a b)) (
    Perm.symm
      (Perm.trans (Perm.append_left (a ++ b) (perm_middle c d)) (perm_middle (a ++ b) (c ++ d))))

module _ {ℓ} {I T : Type ℓ} where
  abbrev pub accounted : Fetches I T → List I
  accounted s = s.waiting ++ (map (λ a. a.0) s.answered ++ s.refused)

  -- A goroutine that goes on moves its id from one list to another.
  Step-perm : {s t : Fetches I T} → Step s t → Perm (accounted s) (accounted t)
  Step-perm {s} (answer xs ys i full e) =
      rw (e, map-append, append_assoc (map (λ a. a.0) s.answered) (i ∷ []) s.refused)
        (move_item i xs ys (map (λ a. a.0) s.answered) s.refused)
  Step-perm {s} (refuse xs ys i e) = rw e (move_item i xs ys (map (λ a. a.0) s.answered) s.refused)

  -- In whatever order the goroutines that read the changed resources go on, each id that was
  -- started is just once among those that wait, those that were answered and those whose request
  -- failed.
  pub requests_accounted : {ids : List I} {s : Fetches I T} → Reach ids s → Perm ids (accounted s)
  requests_accounted begin = Perm.nil
  requests_accounted (start {s = s} more r) =
      let rest : List I = map (λ a. a.0) s.answered ++ s.refused in
      Perm.trans (Perm.append_right more (requests_accounted r)) (
        rw (append_assoc s.waiting rest more, append_assoc s.waiting more rest)
          (Perm.append_left s.waiting (perm_append_comm rest more)))
  requests_accounted (go_on r st) = Perm.trans (requests_accounted r) (Step-perm st)
