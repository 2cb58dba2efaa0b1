-- ===== src/Command/Cluster/Laws.antt =====
-- What a process of a firehose is restored to by helper/manager.go, against what all have gone through.
use nomad_firehose.Base.{
  ℕ, ◌≡◌, ◌≤◌, ◌<◌, ◌^◌, inl, inr, refl, sym, ap, subst, List, [], ◌∷◌, ◌++◌, Option, none, some,
  All, All-left, All-right, All-append, All_mono, arith, ◌∙◌,
}
use nomad_firehose.Base.Int.{pos}
use nomad_firehose.Base.Order.{index_order}
use nomad_firehose.Go.Value.{Bytes, int}
use nomad_firehose.Go.Strconv.{format_uint}
use nomad_firehose.Helper.Runner.{Runner}
use nomad_firehose.Helper.Manager.{render, restore_from, restore_parsed}
use nomad_firehose.Helper.Manager.Terms.{Resumes}
use nomad_firehose.Command.Persist
use nomad_firehose.Command.Persist.{Saver, restored}
use nomad_firehose.Command.Crash.{taken_low}
use nomad_firehose.Command.Cluster.{
  Member, Cluster, Answers, Step, begin_term, move, save, Reach, begin, go_on,
}
use nomad_firehose.Command.Cluster.Gaps.{
  Covers, Some, Some-append, NoGap, Backed, Invariant, Step-rises, NoGap-move, Backed-move, moved,
}

-- A runner whose states are numbers below 2^63: it starts from 0, and comes back to such a state from the
-- text of its update.
pub record Numbered (r : Runner) (at : ℕ → r.State) : Type 0 where
  pub number : r.State → ℕ
  pub number-at : (k : ℕ) → number (at k) ≡ k
  pub from_zero : (st : r.State) → r.set_restore_value (int (pos 0)) st ≡ some (at 0)
  pub resumes : (k : ℕ) → k < 2 ^ 63 → Resumes r (at k) (format_uint k)

abbrev pub Small : Cluster → Type 0
Small c = All (λ m. m.saver.last_change < 2 ^ 63) c.members

module _ (r : Runner) (at : ℕ → r.State) (n : Numbered r at) where
  same_number : (j k : ℕ) → some (at j) ≡ some (at k) → j ≡ k
  same_number j k e =
      let same : at j ≡ at k = cc in sym (n.number-at j) ∙ ap n.number same ∙ n.number-at k

  zero_restored :
      (st0 : r.State) (k : ℕ) → r.set_restore_value (int (pos 0)) st0 ≡ some (at k) → 0 ≡ k
  zero_restored st0 k e = same_number 0 k (sym (n.from_zero st0) ∙ e)

  text_restored :
      (st0 : r.State) (v k : ℕ)
      → v < 2 ^ 63
      → r.set_restore_value (restore_from (some (some (format_uint v)))) st0 ≡ some (at k)
      → v ≡ k
  unfolding restore_from restore_parsed
  text_restored st0 v k small e =
      let m = n.resumes v small in
      same_number v k (
        sym (m.restored st0)
        ∙ subst (λ p. r.set_restore_value (restore_parsed p) st0 ≡ some (at k)) m.read_back e)

  NoGap-zero : (ms : List Member) (k : ℕ) → 0 ≡ k → NoGap ms k
  NoGap-zero ms k e x some_x low = absurd (omega arith)

  -- What a process is restored to leaves no gap.
  restored_NoGap :
      (c : Cluster) (answer : Option (Option Bytes)) (st0 : r.State) (k : ℕ)
      → Backed c
      → Answers c answer
      → r.set_restore_value (restore_from answer) st0 ≡ some (at k)
      → NoGap c.members k
  unfolding restore_from
  restored_NoGap c answer st0 k b (inl e) h = NoGap-zero c.members k (
      zero_restored st0 k (subst (λ a. r.set_restore_value (restore_from a) st0 ≡ some (at k)) e h))
  restored_NoGap c answer st0 k (inl missing) (inr e) h = NoGap-zero c.members k (
      zero_restored st0 k (
        subst (λ a. r.set_restore_value (restore_from a) st0 ≡ some (at k)) (e ∙ ap some missing)
          h))
  restored_NoGap c answer st0 k (inr (v, there, small, g)) (inr e) h =
      subst (NoGap c.members)
        (text_restored st0 v k small (
          subst (λ a. r.set_restore_value (restore_from a) st0 ≡ some (at k)) (e ∙ ap some there)
            h))
        g

  NoGap-join : (ms : List Member) (m : Member) (v : ℕ) → NoGap ms v → NoGap (ms ++ m ∷ []) v
  NoGap-join ms m v g x some_x low = Some-append (Covers x) ms (m ∷ []) (g x some_x low)

  joined :
      (c : Cluster) (k : ℕ)
      → Invariant c
      → NoGap c.members k
      → Invariant (record c { members = c.members ++ record { from = k; saver = restored k } ∷ [] })
  joined c k i g =
      let m : Member = record { from = k; saver = restored k } in
      record {
        reached = All-append _ c.members (m ∷ []) i.reached (Persist.begin, tt);
        backed = elim i.backed [
          | inl e ↦ inl e
          | inr (v, e, small, h) ↦ inr (v, e, small, NoGap-join c.members m v h)
        ];
        no_gaps =
            All-append _ c.members (m ∷ [])
              (All_mono _ _ c.members (λ n. NoGap-join c.members m n.saver.last_change) i.no_gaps)
              (NoGap-join c.members m k g, tt);
      }

  -- The value that a manager writes is not above the last change of its process.
  saved :
      (stored : Option Bytes) (xs ys : List Member) (m : Member) (k : ℕ) (text : Bytes)
      → Invariant (record { stored = stored; members = xs ++ m ∷ ys })
      → m.saver.last_change < 2 ^ 63
      → m.saver.channel ≡ some k
      → render (r.update (at k)) ≡ some text
      → let s = record m.saver { channel = none; taken = m.saver.taken ++ k ∷ [] } in
        Backed (record { stored = some text; members = xs ++ record m { saver = s } ∷ ys })
  saved stored xs ys m k text i small e t =
      let reach = (All-right _ xs (m ∷ ys) i.reached).0 in
      let low = taken_low m.saver.taken k (Persist.go_on reach (Persist.take k e)) refl in
      let fits : k < 2 ^ 63 = ground (arith, low, small) in
      let same : text ≡ format_uint k = cc (t, (n.resumes k fits).rendered) in
      let gap = (All-right _ xs (m ∷ ys) i.no_gaps).0 in
      inr (
        k,
        ap some same,
        fits,
        NoGap-move xs ys m k (Persist.take k e)
            (λ x some_x h. gap x some_x (ground (arith, low, h))),
      )

  Step-Small : {c d : Cluster} → Step r at c d → Small d → Small c
  Step-Small {c} (begin_term answer st0 k a e) small = All-left _ c.members _ small
  Step-Small {c} (move xs ys m e st) small =
      subst (All (λ m. m.saver.last_change < 2 ^ 63)) (sym e) (
        All-append _ xs (m ∷ ys) (All-left _ xs _ small)
          (omega (arith, (All-right _ xs _ small).0, Step-rises st), (All-right _ xs _ small).1))
  Step-Small {c} (save xs ys m k text e h t) small =
      subst (All (λ m. m.saver.last_change < 2 ^ 63)) (sym e)
        (All-append _ xs (m ∷ ys) (All-left _ xs _ small) (All-right _ xs _ small))

  Step-Invariant : {c d : Cluster} → Step r at c d → Small d → Invariant c → Invariant d
  Step-Invariant {c} (begin_term answer st0 k a e) small i =
      joined c k i (restored_NoGap c answer st0 k i.backed a e)
  Step-Invariant {c} (move xs ys m e st) small i =
      let i' = subst (λ ms. Invariant (record { stored = c.stored; members = ms })) e i in
      moved c.stored c.stored xs ys m st i' (Backed-move c.stored xs ys m st i'.backed)
  Step-Invariant {c} (save xs ys m k text e h t) small i =
      let i' = subst (λ ms. Invariant (record { stored = c.stored; members = ms })) e i in
      moved c.stored (some text) xs ys m (Persist.take k h) i'
        (saved c.stored xs ys m k text i' (All-right _ xs _ small).0 h t)

  Reach-Invariant : {c : Cluster} → Reach r at c → Small c → Invariant c
  Reach-Invariant begin small = record { reached = tt; backed = inl refl; no_gaps = tt }
  Reach-Invariant (go_on rc st) small =
      Step-Invariant st small (Reach-Invariant rc (Step-Small st small))

  -- In every state that any number of processes of one firehose of nodes, deployments or jobs,
  -- whose last change only rises, reach together, leading one after the other or at the same
  -- time, ended at any point, with values written or not: when no last change has come to 2^63,
  -- and a process that now reads the shared value is restored to the index `k`, then every index
  -- from 1 to `k` lies above the start of some process and not above its last change.
  pub no_gap_below :
      (c : Cluster) (answer : Option (Option Bytes)) (st0 : r.State) (k x : ℕ)
      → Reach r at c
      → Small c
      → Answers c answer
      → r.set_restore_value (restore_from answer) st0 ≡ some (at k)
      → 0 < x
      → x ≤ k
      → Some (Covers x) c.members
  no_gap_below c answer st0 k x rc small a e some_x low =
      restored_NoGap c answer st0 k (Reach-Invariant rc small).backed a e x some_x low
