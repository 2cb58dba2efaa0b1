-- ===== src/Sink/Mailbox.antt =====
-- What a sink promises, whatever it is: a message that `Put` accepted waits until it is handed over, and it
-- is handed over once. The order is forgotten: messages are held in bags.
pub mod Laws
pub mod Refine
use mathlib.Core.Quot
use mathlib.Core.Quot.{Quot, Quot-set}
use mathlib.Core.List.Perm
use nomad_firehose.Base.{◌≡◌, refl, List, [], ◌∷◌, ◌++◌, Perm}
use nomad_firehose.Go.Value.{Bytes}

abbrev pub Bag : Type 0
Bag = Quot (Perm {A = Bytes})

abbrev pub bag : List Bytes → Bag
bag l = Quot.mk l

abbrev pub add : Bytes → Bag → Bag
add d = Quot.lift Quot-set (λ l. bag (d ∷ l)) (λ k l p. Quot.sound (Perm.cons d p))

pub record Mailbox : Type 0 where
  pub pending : Bag
  pub finished : Bag

abbrev pub mailbox : Bag → Bag → Mailbox
mailbox p f = record { pending = p; finished = f }

abbrev pub accept : List Bytes → Mailbox → Mailbox
accept [] m = m
accept (d ∷ ds) m = accept ds (record m { pending = add d m.pending })

-- Messages are handed over, one after the other.
pub data Moves (m : Mailbox) : Mailbox → Type 0 where
  here : Moves m m
  finish :
      {n : Mailbox} (d : Bytes) (left : Bag)
      → Moves m n
      → n.pending ≡ add d left
      → Moves m (record { pending = left; finished = add d n.finished })
