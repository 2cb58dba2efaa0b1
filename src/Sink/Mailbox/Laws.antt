-- ===== src/Sink/Mailbox/Laws.antt =====
-- Bags of messages, and what moves keep of them.
use mathlib.Core.Quot
use mathlib.Core.Quot.{Quot-set}
use mathlib.Core.List.{perm_middle, perm_append_singleton, Mem-prop}
use mathlib.Core.List.Perm
use nomad_firehose.Base.{◌≡◌, refl, sym, ap, ◌∙◌, List, [], ◌∷◌, ◌++◌, Mem, Perm}
use nomad_firehose.Go.Value.{Bytes}
use nomad_firehose.Sink.Mailbox.{Bag, bag, add, Mailbox, accept, Moves, here, finish}

pub same_bag : {k l : List Bytes} → Perm k l → bag k ≡ bag l
same_bag p = Quot.sound p

-- A list with `d` at its end, or in its middle, is that list and `d`.
pub bag-end : (l : List Bytes) (d : Bytes) → add d (bag l) ≡ bag (l ++ d ∷ [])
bag-end l d = same_bag (Perm.symm (perm_append_singleton d l))

-- The messages of two bags together.
abbrev pub join : Bag → Bag → Bag
join b c =
    Quot.lift Quot-set
      (λ k. Quot.lift Quot-set (λ l. bag (k ++ l)) (λ l m p. Quot.sound (Perm.append_left k p)) c)
      (λ j k p. join_same j k p c) b
  where
    join_same :
        (j k : List Bytes) (p : Perm j k) (c : Bag)
        → Quot.lift Quot-set (λ l. bag (j ++ l)) (λ l m q. Quot.sound (Perm.append_left j q)) c
          ≡ Quot.lift Quot-set (λ l. bag (k ++ l)) (λ l m q. Quot.sound (Perm.append_left k q)) c
    join_same j k p = Quot.ind (λ c. Quot-set _ _) (λ l. Quot.sound (Perm.append_right l p))

-- All messages that a mailbox has accepted.
abbrev pub accepted : Mailbox → Bag
accepted m = join m.pending m.finished

join-add : (d : Bytes) (b c : Bag) → join (add d b) c ≡ add d (join b c)
join-add d b c =
    Quot.ind {β = λ b. join (add d b) c ≡ add d (join b c)} (λ b. Quot-set _ _)
      (λ k.
        Quot.ind {β = λ c. join (add d (bag k)) c ≡ add d (join (bag k) c)} (λ c. Quot-set _ _)
          (λ l. refl) c)
      b

join-add_right : (d : Bytes) (b c : Bag) → join b (add d c) ≡ add d (join b c)
join-add_right d b c =
    Quot.ind {β = λ b. join b (add d c) ≡ add d (join b c)} (λ b. Quot-set _ _)
      (λ k.
        Quot.ind {β = λ c. join (bag k) (add d c) ≡ add d (join (bag k) c)} (λ c. Quot-set _ _)
          (λ l. same_bag (perm_middle k l)) c)
      b

join-empty : (b : Bag) → join (bag []) b ≡ b
join-empty = Quot.ind (λ b. Quot-set _ _) (λ l. refl)

-- Moves keep the messages together.
pub accepted-Moves : {m n : Mailbox} → Moves m n → accepted n ≡ accepted m
accepted-Moves here = refl
accepted-Moves (finish {n = n} d left r e) =
    join-add_right d left n.finished
    ∙ sym (join-add d left n.finished)
    ∙ ap (λ b. join b n.finished) (sym e)
    ∙ accepted-Moves r

pub accepted-accept : (d : Bytes) (m : Mailbox) → accepted (accept (d ∷ []) m) ≡ add d (accepted m)
accepted-accept d m = join-add d m.pending m.finished

-- With nothing pending, all is finished.
pub finished-all : (m : Mailbox) → m.pending ≡ bag [] → m.finished ≡ accepted m
finished-all m e = sym (join-empty m.finished) ∙ ap (λ b. join b m.finished) (sym e)

-- Is the message in the bag?
abbrev pub Holds : Bytes → Bag → Type 0
Holds d b = (Quot.lift_prop (λ l. (Mem d l, Mem-prop)) (λ k l p. Perm.mem_iff p) b).0
