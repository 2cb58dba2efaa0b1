-- ===== src/Sink/Stdout.antt =====
-- sink/stdout.go: `Put` prints, and the channel stays empty.
use nomad_firehose.Sink.Mailbox.{bag, mailbox, Mailbox, accept, Moves, here, finish}
use nomad_firehose.Sink.Mailbox.Laws.{bag-end}
use nomad_firehose.Sink.Interface.{SinkInterface}
use nomad_firehose.Base.{
  arith, some, subst, refl, true, false, Bool, if◌then◌else◌, List, [], ◌∷◌, ◌++◌, foldl, ◌≡◌, ap,
  sym, append-nil, append_assoc, ◌∙◌,
}
use nomad_firehose.Go.Value.{Bytes}
use nomad_firehose.Sink.Start.{Started, Look, waits, panics, passes}

-- The lines that were printed, and the messages in `putCh`.
pub record StdoutSink : Type 0 where
  pub printed : List Bytes
  pub put_ch : List Bytes
  pub closed : Bool

unfoldable pub start : Started
start = record { writers = []; batches = false; waits = true }

unfoldable pub put : StdoutSink → Bytes → StdoutSink
put s d = record s { printed = s.printed ++ d ∷ [] }

-- The loop of `Stop` passes when it sees an empty channel.
abbrev pub is_drained : List Bytes → Bool
is_drained [] = true
is_drained (_ ∷ _) = false

-- A look of `Stop` at the channel.
unfoldable pub stop : StdoutSink → Look StdoutSink
stop s =
    if is_drained s.put_ch
    then if s.closed then panics else passes (record s { closed = true })
    else waits

put_all :
    (s : StdoutSink) (ds : List Bytes) → foldl put s ds ≡ record s { printed = s.printed ++ ds }
unfolding put
put_all s [] = ap {B = StdoutSink} (λ l. record s { printed = l }) (sym (append-nil s.printed))
put_all s (d ∷ ds) =
    put_all (put s d) ds
    ∙ ap {B = StdoutSink} (λ l. record s { printed = l }) (append_assoc s.printed (d ∷ []) ds)

-- All messages are printed, in order, and `Stop` passes at once.
prints_all :
    (s : StdoutSink) (ds : List Bytes)
    → s.put_ch ≡ []
    → s.closed ≡ false
    → stop (foldl put s ds) ≡ passes (record s { printed = s.printed ++ ds; closed = true })
unfolding stop
prints_all s ds e o =
    let p : is_drained s.put_ch ≡ true = ap is_drained e in rw (put_all s ds, p, o) refl

abbrev pub view : StdoutSink → Mailbox
view s = mailbox (bag s.put_ch) (bag s.printed)

pub put-Moves :
    (s s' : StdoutSink) (d : Bytes)
    → some (put s d) ≡ some s'
    → Moves (accept (d ∷ []) (view s)) (view s')
unfolding put
put-Moves s s' d e =
    let same : put s d ≡ s' = cc in
    subst (λ x. Moves (accept (d ∷ []) (view s)) (view x)) same
      (subst (Moves _) (ap (λ f. mailbox (bag s.put_ch) f) (bag-end s.printed d))
        (finish d (bag s.put_ch) here refl))

pub stop-same : (s s' : StdoutSink) → stop s ≡ passes s' → view s' ≡ view s
unfolding stop
stop-same s s' e = ground arith

-- The sink as a whole, which has no goroutine.
abbrev pub implementation : SinkInterface
implementation = record {
  State = StdoutSink;
  empty = record { printed = []; put_ch = []; closed = false };
  started = start;
  put = λ s d. some (put s d);
  stop = stop;
  stopped = λ s. s.closed;
  Step = λ s s'. ⊥;
  view = view;
  view-empty = refl;
  put-Moves = put-Moves;
  stop-same = stop-same;
  Step-Moves = λ st. absurd st;
}
