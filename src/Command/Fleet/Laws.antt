-- ===== src/Command/Fleet/Laws.antt =====
-- Lemmas on the processes of one firehose of command/nodes, command/deployments or command/jobs with their
-- watchers.
use mathlib.Core.List.{map-append}
use nomad_firehose.Base.{
  ℕ, ◌≡◌, ◌≤◌, ◌<◌, inl, inr, refl, sym, ap, subst, ◌∙◌, true, List, [], ◌∷◌, ◌++◌, map, Option,
  some, All, All-left, All-right, All-append, append_assoc, append-nil,
}
use nomad_firehose.Base.Order.{index_order}
use nomad_firehose.Go.Value.{Bytes}
use nomad_firehose.Helper.Manager.{restore_from}
use nomad_firehose.Command.Nomad.{Stub}
use nomad_firehose.Command.Watch.{Response, Watch, round, turns, IsSettled}
use nomad_firehose.Command.Watch.Runs.{round-Turn, turns-run}
use nomad_firehose.Command.Watch.History.{IsHistory}
use nomad_firehose.Command.Persist
use nomad_firehose.Command.Persist.{Saver, restored}
use nomad_firehose.Command.Delivery.{index_of, start_at, Done, run-Done}
use nomad_firehose.Command.Cluster
use nomad_firehose.Command.Cluster.{Cluster, Member, Answers}
use nomad_firehose.Command.Cluster.Gaps.{Some, Covers}
use nomad_firehose.Command.Cluster.Laws.{Small, no_gap_below}
use nomad_firehose.Command.Fleet.{
  Watcher, Process, start, turn, take, Fleet, member, cluster, Step, begin_term, answered, go_on,
  save, Reach, begin, more,
}

turns-append :
    {E : Type 0} (h : Watch ℕ → Response Stub → Watch ℕ × List E) (w : Watch ℕ)
    (rs ss : List (Response Stub))
    → turns h w (rs ++ ss)
      ≡ ((turns h (turns h w rs).0 ss).0, (turns h w rs).1 ++ (turns h (turns h w rs).0 ss).1)
unfolding turns
turns-append h w [] ss = refl
turns-append {E} h w (r ∷ rs) ss = rw (turns-append h (h w r).0 rs ss) (
    ap {B = Watch ℕ × List E} (λ l. ((turns h (turns h (h w r).0 rs).0 ss).0, l))
      (sym (append_assoc (h w r).1 _ _)))

module _ (v : Watcher) where
  -- What a process has is what its watcher makes of the answers that came.
  record Tracks (p : Process v) : Type 0 where
    watched : turns v.watch_round (start_at p.from) p.answers ≡ (p.watch, p.effects)
    same : p.saver.last_change ≡ p.watch.last_change
    settled : IsSettled p.watch

  start-Tracks : (k : ℕ) → Tracks (start v k)
  unfolding start turns
  start-Tracks k = record {
    watched = ap {B = Watch ℕ × List v.Effect} (λ w. (w, [])) (sym (v.start_watch-at k));
    same = ap (λ w. w.last_change) (sym (v.start_watch-at k));
    settled = rw (v.start_watch-at k) refl;
  }

  turn-rises :
      (p : Process v) (r : Response Stub)
      → Tracks p
      → (IsSettled (turn v p r).watch)
        × (index_order.leq p.saver.last_change (turn v p r).saver.last_change ≡ true)
  unfolding turn
  turn-rises p r t =
      let u = round-Turn index_of p.watch r t.settled in
      rw (v.watch_round-round p.watch r) (
        u.settled,
        subst (λ k. index_order.leq k (round index_of p.watch r).0.last_change ≡ true) (sym t.same)
            u.grows,
      )

  turn-Tracks : (p : Process v) (r : Response Stub) → Tracks p → Tracks (turn v p r)
  unfolding turn turns
  turn-Tracks p r t = record {
    watched =
        turns-append v.watch_round (start_at p.from) p.answers (r ∷ [])
        ∙ rw t.watched (
            ap {B = Watch ℕ × List v.Effect} (λ l. ((v.watch_round p.watch r).0, p.effects ++ l))
              (append-nil (v.watch_round p.watch r).1));
    same = refl;
    settled = (turn-rises p r t).0;
  }

  saver-Tracks :
      (p : Process v) (s : Saver ℕ)
      → s.last_change ≡ p.saver.last_change
      → Tracks p
      → Tracks (record p { saver = s })
  saver-Tracks p s e t = record { watched = t.watched; same = e ∙ t.same; settled = t.settled }

  abbrev AllTrack : Fleet v → Type 0
  AllTrack f = All Tracks f.processes

  -- One process moves on.
  move-Tracks :
      (xs ys : List (Process v)) (p q : Process v)
      → (Tracks p → Tracks q)
      → All Tracks (xs ++ p ∷ ys)
      → All Tracks (xs ++ q ∷ ys)
  move-Tracks xs ys p q f t =
      let old = All-right Tracks xs (p ∷ ys) t in
      All-append Tracks xs (q ∷ ys) (All-left Tracks xs (p ∷ ys) t) (f old.0, old.1)

  Step-Tracks : {f g : Fleet v} → Step v f g → AllTrack f → AllTrack g
  unfolding take
  Step-Tracks {f} (begin_term answer st0 k a e) t =
      All-append Tracks f.processes (start v k ∷ []) t (start-Tracks k, tt)
  Step-Tracks (answered xs ys p r e) t =
      move-Tracks xs ys p (turn v p r) (turn-Tracks p r) (subst (All Tracks) e t)
  Step-Tracks (go_on xs ys p {s} e st same) t =
      move-Tracks xs ys p (record p { saver = s }) (saver-Tracks p s same) (subst (All Tracks) e t)
  Step-Tracks (save xs ys p k text e h t0) t =
      move-Tracks xs ys p (take v p k) (saver-Tracks p _ refl) (subst (All Tracks) e t)

  Reach-Tracks : {f : Fleet v} → Reach v f → AllTrack f
  Reach-Tracks begin = tt
  Reach-Tracks (more r st) = Step-Tracks st (Reach-Tracks r)

  abbrev Shadow : Cluster → Cluster → Type 0
  Shadow = Cluster.Step v.runner v.at

  members_at :
      (f : Fleet v) (xs ys : List (Process v)) (p : Process v)
      → f.processes ≡ xs ++ p ∷ ys
      → map (member v) f.processes ≡ map (member v) xs ++ member v p ∷ map (member v) ys
  members_at f xs ys p e = ap (map (member v)) e ∙ map-append (member v) xs (p ∷ ys)

  -- What a step does without the watchers.
  Step-Shadow : {f g : Fleet v} → AllTrack f → Step v f g → Shadow (cluster v f) (cluster v g)
  unfolding start take turn
  Step-Shadow {f} t (begin_term answer st0 k a e) =
      subst (λ ms. Shadow (cluster v f) (record { stored = f.stored; members = ms }))
        (sym (map-append (member v) f.processes (start v k ∷ [])))
        (Cluster.begin_term answer st0 k a e)
  Step-Shadow {f} t (answered xs ys p r e) =
      subst (λ ms. Shadow (cluster v f) (record { stored = f.stored; members = ms }))
        (sym (map-append (member v) xs (turn v p r ∷ ys)))
        (Cluster.move (map (member v) xs) (map (member v) ys) (member v p) (members_at f xs ys p e)
          (Persist.rise (turn v p r).saver.last_change
            (turn-rises p r (All-right Tracks xs (p ∷ ys) (subst (All Tracks) e t)).0).1))
  Step-Shadow {f} t (go_on xs ys p {s} e st same) =
      subst (λ ms. Shadow (cluster v f) (record { stored = f.stored; members = ms }))
        (sym (map-append (member v) xs (record p { saver = s } ∷ ys)))
        (Cluster.move (map (member v) xs) (map (member v) ys) (member v p) (members_at f xs ys p e)
          st)
  Step-Shadow {f} t (save xs ys p k text e h t0) =
      subst (λ ms. Shadow (cluster v f) (record { stored = some text; members = ms }))
        (sym (map-append (member v) xs (take v p k ∷ ys)))
        (Cluster.save (map (member v) xs) (map (member v) ys) (member v p) k text
          (members_at f xs ys p e) h t0)

  Reach-Shadow : {f : Fleet v} → Reach v f → Cluster.Reach v.runner v.at (cluster v f)
  Reach-Shadow begin = Cluster.begin
  Reach-Shadow (more r st) = Cluster.go_on (Reach-Shadow r) (Step-Shadow (Reach-Tracks r) st)

  -- The answers that the process had are those of a server whose new changes rise from its start.
  abbrev pub Fair : Process v → Type 0
  Fair p = IsHistory index_of p.from p.from [] p.answers

  -- The index is above the start of the process and not above its last change, and its watcher has done its
  -- part for every listed item above its start.
  abbrev pub HasHandled : ℕ → Process v → Type 0
  HasHandled x p = Covers x (member v p) × Done p.from v.handle p.effects p.answers

  effects-Done : (p : Process v) → Tracks p → Fair p → Done p.from v.handle p.effects p.answers
  effects-Done p t h =
      let same =
        turns-run index_of v.handle v.watch_round v.watch_round-round (start_at p.from) p.answers in
      subst (λ done. Done p.from v.handle done p.answers) (ap (λ w. w.1) (sym same ∙ t.watched))
        (run-Done p.from v.handle p.answers h)

  Some-handled :
      (x : ℕ) (ps : List (Process v))
      → All Tracks ps
      → All Fair ps
      → Some (Covers x) (map (member v) ps)
      → Some (HasHandled x) ps
  Some-handled x (p ∷ ps) t h (inl m) = inl (m, effects-Done p t.0 h.0)
  Some-handled x (p ∷ ps) t h (inr s) = inr (Some-handled x ps t.1 h.1 s)
  Some-handled x [] t h s = absurd s

  -- In every state that any number of processes of a firehose of nodes, deployments or jobs reach
  -- together, with their watchers, their goroutines that save and their managers, leading one
  -- after the other or at the same time, ended at any point, with values written or not: when no
  -- last change has come to 2^63, the answers that each process had are those of a server whose
  -- new changes rise from its start, and a process that now reads the shared value is restored to
  -- the index `k`, then every index from 1 to `k` lies above the start and not above the last
  -- change of some process whose watcher has done its part, a read or a call of the callback, for
  -- every item above its start that it was ever told of.
  pub no_change_lost :
      (f : Fleet v) (answer : Option (Option Bytes)) (st0 : v.runner.State) (k x : ℕ)
      → Reach v f
      → Small (cluster v f)
      → All Fair f.processes
      → Answers (cluster v f) answer
      → v.runner.set_restore_value (restore_from answer) st0 ≡ some (v.at k)
      → 0 < x
      → x ≤ k
      → Some (HasHandled x) f.processes
  no_change_lost f answer st0 k x r small fair a e some_x low =
      Some-handled x f.processes (Reach-Tracks r) fair (
        no_gap_below v.runner v.at v.numbered (cluster v f) answer st0 k x (Reach-Shadow r) small a
          e some_x low)
