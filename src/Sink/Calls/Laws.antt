-- ===== src/Sink/Calls/Laws.antt =====
-- Lemmas on the calls that a loop of a writer makes.
use mathlib.Core.List.{map-append}
use nomad_firehose.Base.{
  ◌≡◌, sym, ap, ◌∙◌, Bool, List, [], ◌∷◌, ◌++◌, map, foldl, gather, append_assoc, append-nil,
}
use nomad_firehose.Go.Value.{Bytes}
use nomad_firehose.Sink.Calls.{Calls, call}

abbrev pub requests : {S R : Type 0} → Calls S R → List R
requests w = map (λ c. c.0) w.calls

pub requests-call :
    {S R : Type 0} (send : S → R → S × Bool) (w : Calls S R) (r : R)
    → requests (call send w r) ≡ requests w ++ r ∷ []
unfolding call
requests-call send w r = map-append (λ c. c.0) w.calls _

-- A body that makes the requests of `of` for each message makes those of all messages, in their order.
pub loop_requests :
    {S R : Type 0} (of : Bytes → List R) (body : Calls S R → Bytes → Calls S R)
    → ((w : Calls S R) (d : Bytes) → requests (body w d) ≡ requests w ++ of d)
    → (w : Calls S R) (ds : List Bytes) → requests (foldl body w ds) ≡ requests w ++ gather of ds
loop_requests of body e w [] = sym (append-nil (requests w))
loop_requests of body e w (d ∷ ds) =
    loop_requests of body e (body w d) ds
    ∙ ap (λ l. l ++ gather of ds) (e w d)
    ∙ append_assoc (requests w) (of d) (gather of ds)
