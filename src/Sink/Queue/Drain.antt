-- ===== src/Sink/Queue/Drain.antt =====
-- The writers and the loop of `Stop` of the sinks that send one message at a time, once no more messages
-- are put.
use nomad_firehose.Base.{
  Bool-cases, inl, inr, ℕ, suc, ◌+◌, ◌*◌, ◌<◌, ◌≡◌, refl, true, ap, subst, Perm, append-nil, List,
  [], ◌∷◌, ◌++◌, length, length-append, arith,
}
use nomad_firehose.Go.Value.{Bytes}
use nomad_firehose.Sink.Queue.{Queue, Step, take, write, stop, Reach, go_on}
use nomad_firehose.Sink.Queue.Laws.{whereabouts, messages_kept}

-- Is the step one of a writer?
abbrev pub IsWork : {workers : ℕ} {q q' : Queue} → Step workers q q' → Type 0
IsWork (take d rest e lt) = Unit
IsWork (write xs ys d e) = Unit
IsWork (stop e c) = ⊥

-- A run of the writers alone, with the number of its steps.
pub data Writing (workers : ℕ) (q : Queue) : ℕ → Queue → Type 0 where
  unmoved : Writing workers q 0 q
  work_on :
      {n : ℕ} {q' q'' : Queue}
      → Writing workers q n q'
      → (s : Step workers q' q'') → IsWork s
      → Writing workers q (suc n) q''

-- How many steps the messages of a queue have before them.
abbrev pub work : Queue → ℕ
work q = 2 * length q.put_ch + length q.held

work-Step : {workers : ℕ} {q q' : Queue} (s : Step workers q q') → IsWork s → work q ≡ suc (work q')
work-Step {q = q} (take d rest e lt) t = omega (arith, ap length e, length-append q.held (d ∷ []))
work-Step (write xs ys d e) t =
    omega (arith, ap length e, length-append xs (d ∷ ys), length-append xs ys)
work-Step (stop e c) t = absurd t

-- Every run of the writers alone, in any interleaving, is finite: each of its steps takes one
-- from twice the messages in the channel and those in the writers' hands.
pub Writing-ends :
    {workers : ℕ} {q : Queue} {n : ℕ} {q' : Queue} → Writing workers q n q' → n + work q' ≡ work q
Writing-ends unmoved = omega arith
Writing-ends (work_on w s t) = omega (arith, Writing-ends w, work-Step s t)

module _ (workers : ℕ) where
  -- The writers come to an end with nothing left.
  abbrev pub Drains : Queue → Type 0
  Drains q = (n : ℕ) × (q' : Queue) × Writing workers q n q' × (q'.put_ch ≡ []) × (q'.held ≡ [])

  hands_empty :
      {n : ℕ} {q0 : Queue} (q : Queue) (l : List Bytes)
      → Writing workers q0 n q
      → q.held ≡ l
      → (m : ℕ) × (q' : Queue) × Writing workers q0 m q' × (q'.put_ch ≡ q.put_ch) × (q'.held ≡ [])
  hands_empty {n} q [] w e = (n, q, w, refl, e)
  hands_empty q (d ∷ l) w e =
      hands_empty (record q { held = l; attempted = q.attempted ++ d ∷ [] }) l
        (work_on w (write [] l d e) tt) refl

  channel_empty :
      {n : ℕ} {q0 : Queue} (q : Queue) (l : List Bytes)
      → 0 < workers
      → Writing workers q0 n q
      → q.put_ch ≡ l
      → q.held ≡ []
      → Drains q0
  channel_empty {n} q [] pos w e h = (n, q, w, e, h)
  channel_empty q (d ∷ l) pos w e h =
      channel_empty (record q { put_ch = l; held = []; attempted = q.attempted ++ d ∷ [] }) l pos
        (work_on (work_on w (take d l e (omega (arith, ap length h))) tt)
          (write [] [] d (ap (λ k. k ++ d ∷ []) h)) tt)
        refl refl

  pub writers_drain : (q : Queue) → 0 < workers → Drains q
  writers_drain q pos =
      let (n, q', w, e, h) = hands_empty q q.held unmoved refl in
      channel_empty q' q'.put_ch pos w refl h

-- The writers leave `stopCh` as it is.
pub closed-Writing :
    {workers : ℕ} {q : Queue} {n : ℕ} {q' : Queue} → Writing workers q n q' → q'.closed ≡ q.closed
closed-Writing unmoved = refl
closed-Writing (work_on w (take d rest e lt) t) = closed-Writing w
closed-Writing (work_on w (write xs ys d e) t) = closed-Writing w
closed-Writing (work_on w (stop e c) t) = absurd t

Writing-Reach :
    {workers : ℕ} {ds : List Bytes} {q : Queue} {n : ℕ} {q' : Queue}
    → Reach workers ds q
    → Writing workers q n q'
    → Reach workers ds q'
Writing-Reach r unmoved = r
Writing-Reach r (work_on w s t) = go_on (Writing-Reach r w) s

pub all_attempted :
    {ds : List Bytes} (q : Queue)
    → Perm ds (whereabouts q)
    → q.put_ch ≡ []
    → q.held ≡ []
    → Perm ds q.attempted
all_attempted {ds} q p e h = subst (Perm ds) (rw (e, h) (append-nil q.attempted)) p

-- From every state that a sink reaches with at least one writer, it can go on, without another
-- put, to a state in which `Stop` has closed its channel and every accepted message was attempted
-- exactly as often as it was put.
pub stop_completes :
    {workers : ℕ} {ds : List Bytes} {q : Queue}
    → Reach workers ds q
    → 0 < workers
    → (q' : Queue) × Reach workers ds q' × (q'.closed ≡ true) × Perm ds q'.attempted
stop_completes {workers} {q = q} r pos =
    let (n, q', w, e, h) = writers_drain workers q pos in
    let r' = Writing-Reach r w in
    let all = all_attempted q' (messages_kept r') e h in
    elim (Bool-cases q'.closed) [
      | inl closed ↦ (q', r', closed, all)
      | inr open_ ↦ (record q' { closed = true }, go_on r' (stop e open_), refl, all)
    ]
