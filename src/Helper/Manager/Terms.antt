-- ===== src/Helper/Manager/Terms.antt =====
-- Terms of leadership of helper/manager.go: what the runner starts from, how a term ends, and what the next
-- one finds.
use nomad_firehose.Base.{
  ◌≡◌, ◌≢◌, refl, ap, subst, ◌⊎◌, inl, inr, Bool, true, false, Option, none, some, List, [], ◌∷◌,
  ◌++◌, String, Option-cases, arith, All, ◌∙◌,
}
use nomad_firehose.Base.Int.{ℤ, pos}
use nomad_firehose.Go.Value.{Value, int, int64, Bytes}
use nomad_firehose.Go.Strconv.{Parsed, parsed, failed, ParseError, parse_int}
use nomad_firehose.Helper.Runner.{Runner}
use nomad_firehose.Helper.Consul.{Consul}
use nomad_firehose.Helper.Manager.{
  Event, updated, stopped, lock_noted, lock_lost, released, Exit, unknown_update, locked,
  runner_started, runner_stopped, unlocked, Outcome, no_options, no_lock, led, LockAnswers, render,
  restore_parsed, restore_from, restore, lead, acquire, value_key,
}

-- What the manager needs of a runner: it starts from 0 and from any `int64`, and its updates are
-- numbers.
pub record Fits (r : Runner) : Type 0 where
  pub from_zero :
      (st : r.State) → (st' : r.State) × (r.set_restore_value (int (pos 0)) st ≡ some st')
  pub from_int64 :
      (v : ℤ) (st : r.State) → (st' : r.State) × (r.set_restore_value (int64 v) st ≡ some st')
  pub sends : (st : r.State) → (b : Bytes) × (render (r.update st) ≡ some b)

-- The text is that of the update of a state, and the state comes back from it.
pub record Resumes (r : Runner) (st : r.State) (text : Bytes) : Type 0 where
  pub value : ℤ
  pub rendered : render (r.update st) ≡ some text
  pub read_back : parse_int text ≡ parsed value
  pub restored : (st0 : r.State) → r.set_restore_value (int64 value) st0 ≡ some st

abbrev is_update : Event → Bool
is_update (updated _) = true
is_update _ = false

abbrev pub Quiet : List Event → Type 0
Quiet = All (λ e. is_update e ≡ false)

restore_parsed_cases :
    (p : Parsed ℤ) → (restore_parsed p ≡ int (pos 0)) ⊎ ((v : ℤ) × (restore_parsed p ≡ int64 v))
unfolding restore_parsed
restore_parsed_cases p = elim (Option-cases p.error) [
  | inl e ↦ inr (p.value, rw (restore_parsed, e))
  | inr (_, e) ↦ inl (rw (restore_parsed, e))
]

restore_from_cases :
    (o : Option (Option Bytes))
    → (restore_from o ≡ int (pos 0)) ⊎ ((v : ℤ) × (restore_from o ≡ int64 v))
unfolding restore_from
restore_from_cases none = inl refl
restore_from_cases (some none) = inl refl
restore_from_cases (some (some sv)) = restore_parsed_cases (parse_int sv)

module _ (c : Consul) where
  open c use {Store, get, put}

  lead_known :
      (key : String) (s : Store) (v : Value) (b : Bytes) (es : List Event)
      → render v ≡ some b
      → lead c key s (updated v ∷ es) ≡ lead c key (put s key b).0 es
  unfolding lead
  lead_known key s v b es e = rw (lead, e)

  pub lead_one :
      (key : String) (s : Store) (v : Value) (b : Bytes)
      → render v ≡ some b
      → (lead c key s (updated v ∷ [])).0 ≡ (put s key b).0
  unfolding lead
  lead_one key s v b e = rw (lead, e)

  lead_unknown :
      (key : String) (s : Store) (v : Value) (es : List Event)
      → render v ≡ none
      → lead c key s (updated v ∷ es) ≡ (s, some unknown_update)
  unfolding lead
  lead_unknown key s v es e = rw (lead, e)

  lead-append :
      (key : String) (s : Store) (es fs : List Event)
      → (lead c key s es).1 ≡ none
      → lead c key s (es ++ fs) ≡ lead c key (lead c key s es).0 fs
  unfolding lead
  lead-append key s [] fs h = refl
  lead-append key s (updated v ∷ es) fs h = elim (Option-cases (render v)) [
    | inl e ↦ cc (ap (λ x. x.1) (lead_unknown key s v es e))
    | inr (b, e) ↦
        rw (lead, e)
          (lead-append key (put s key b).0 es fs
            (subst (λ x. x.1 ≡ none) (lead_known key s v b es e) h))
  ]
  lead-append key s (stopped ∷ es) fs h = cc
  lead-append key s (lock_noted ∷ es) fs h = lead-append key s es fs h
  lead-append key s (lock_lost ∷ es) fs h = cc
  lead-append key s (released ∷ es) fs h = cc

  lead-Quiet : (key : String) (s : Store) (es : List Event) → Quiet es → (lead c key s es).0 ≡ s
  unfolding lead
  lead-Quiet key s [] q = refl
  lead-Quiet key s (updated v ∷ es) q = cc q.0
  lead-Quiet key s (stopped ∷ es) q = refl
  lead-Quiet key s (lock_noted ∷ es) q = lead-Quiet key s es q.1
  lead-Quiet key s (lock_lost ∷ es) q = refl
  lead-Quiet key s (released ∷ es) q = refl

  restore_read :
      (s : Store) (key : String) (b : Bytes) (v : ℤ)
      → get s key ≡ some (some b)
      → parse_int b ≡ parsed v
      → restore c s key ≡ int64 v
  unfolding restore
  restore_read s key b v e p = rw (e, restore_from, p)

  pub restore_unreadable :
      (s : Store) (key : String) (b : Bytes) (v : ℤ) (x : ParseError)
      → get s key ≡ some (some b)
      → parse_int b ≡ failed v x
      → restore c s key ≡ int (pos 0)
  unfolding restore
  restore_unreadable s key b v x e p = rw (e, restore_from, p)

  -- The value to start from is 0 or an `int64`.
  restore_cases :
      (s : Store) (key : String)
      → (restore c s key ≡ int (pos 0)) ⊎ ((v : ℤ) × (restore c s key ≡ int64 v))
  unfolding restore
  restore_cases s key = restore_from_cases (get s key)

  -- A term starts whatever is stored: no runner refuses what the manager restores.
  starts :
      (r : Runner) (s : Store) (key : String) (st : r.State)
      → Fits r
      → (st' : r.State) × (r.set_restore_value (restore c s key) st ≡ some st')
  starts r s key st f = elim (restore_cases s key) [
    | inl e ↦ rw e (f.from_zero st)
    | inr (v, e) ↦ rw e (f.from_int64 v st)
  ]

  -- When a runner's state comes back from the text of its update, the loop of a term is still
  -- waiting when it takes that update, the text is put into Consul without an error, and no other
  -- update follows, then the next term restores exactly that state, whatever the runner's state
  -- is then.
  pub resume :
      (r : Runner) (key : String) (s : Store) (before after : List Event) (st st0 : r.State)
      (text : Bytes)
      → Resumes r st text
      → (lead c key s before).1 ≡ none
      → (put (lead c key s before).0 key text).1 ≡ true
      → Quiet after
      → let s' = (lead c key s (before ++ updated (r.update st) ∷ after)).0 in
        r.set_restore_value (restore c s' key) st0 ≡ some st
  resume r key s before after st st0 text m waits written quiet =
      rw (stored, restore_read _ key text m.value (c.get-put _ key text written) m.read_back)
        (m.restored st0)
    where
      stored :
          (lead c key s (before ++ updated (r.update st) ∷ after)).0
          ≡ (put (lead c key s before).0 key text).0
      stored =
          ap (λ x. x.0)
            (lead-append key s before (updated (r.update st) ∷ after) waits
              ∙ lead_known key _ (r.update st) text after m.rendered)
          ∙ lead-Quiet key _ after quiet

  -- A term changes no other key of the store.
  pub lead_keeps :
      (key other : String) (s : Store) (es : List Event)
      → key ≢ other
      → get (lead c key s es).0 other ≡ get s other
  unfolding lead
  lead_keeps key other s [] ne = refl
  lead_keeps key other s (updated v ∷ es) ne = elim (Option-cases (render v)) [
    | inl e ↦ rw (lead, e)
    | inr (b, e) ↦
        rw (lead, e) (lead_keeps key other (put s key b).0 es ne ∙ c.get-put_other s key other b ne)
  ]
  lead_keeps key other s (stopped ∷ es) ne = refl
  lead_keeps key other s (lock_noted ∷ es) ne = lead_keeps key other s es ne
  lead_keeps key other s (lock_lost ∷ es) ne = refl
  lead_keeps key other s (released ∷ es) ne = refl

  -- Events whose updates come from the runner.
  abbrev pub FromRunner : Runner → Event → Type 0
  FromRunner r (updated v) = (st : r.State) × (v ≡ r.update st)
  FromRunner r _ = Unit

  -- For a runner that fits, a term of leadership never ends with the error for an update of an
  -- unknown type, as long as its updates come from the runner.
  lead_known_updates :
      (r : Runner) (key : String) (s : Store) (es : List Event)
      → Fits r
      → All (FromRunner r) es
      → (lead c key s es).1 ≢ some unknown_update
  unfolding lead
  lead_known_updates r key s [] f h = λ e. cc
  lead_known_updates r key s (updated v ∷ es) f (o, h) =
      let (b, e) = f.sends o.0 in
      rw (lead, ap render o.1 ∙ e) (lead_known_updates r key (put s key b).0 es f h)
  lead_known_updates r key s (stopped ∷ es) f h = λ e. cc
  lead_known_updates r key s (lock_noted ∷ es) f h = lead_known_updates r key s es f h.1
  lead_known_updates r key s (lock_lost ∷ es) f h = λ e. cc
  lead_known_updates r key s (released ∷ es) f h = λ e. cc

  -- When `acquireConsulLeadership` returns for a runner that starts from any restored value and
  -- sends numbers, then either nothing was done, since the options or the lock were refused, or
  -- the lock was taken, the runner started, the runner stopped and the lock released, in this
  -- order, once each.
  pub acquire_balanced :
      (r : Runner) (prefix : String) (lock : LockAnswers) (s : Store) (st : r.State)
      (es : List Event) (o : Outcome)
      → Fits r
      → let t = acquire c r prefix lock s st es in
        t.result ≡ some o
        → ((t.actions ≡ []) × ((o ≡ no_options) ⊎ (o ≡ no_lock)))
          ⊎ ((t.actions ≡ locked ∷ runner_started ∷ runner_stopped ∷ unlocked ∷ [])
              × ((x : Exit) × (o ≡ led x)))
  unfolding acquire
  acquire_balanced r prefix lock s st es o f h =
      let (st', e) = starts r s (value_key prefix r.name) st f in ground (arith, e)
