-- ===== src/Sink/Interface/Laws.antt =====
-- What holds of every implementation of sink/structs.go.
use nomad_firehose.Base.{◌≡◌, ap, ◌∙◌, List, []}
use nomad_firehose.Go.Value.{Bytes}
use nomad_firehose.Sink.Mailbox.{bag, add}
use nomad_firehose.Sink.Mailbox.Laws.{
  accepted, accepted-Moves, accepted-accept, finished-all, bag-end,
}
use nomad_firehose.Sink.Interface.{
  SinkInterface, Reach, begin, put, stop, go_on, Goes, still, further,
}

module _ (k : SinkInterface) where
  -- What is pending and what is finished is together what was put.
  pub accepted-Reach : {ds : List Bytes} {s : k.State} → Reach k ds s → accepted (k.view s) ≡ bag ds
  accepted-Reach begin = ap accepted k.view-empty
  accepted-Reach (put {ds = ds} {s = s} {s' = s'} d r e) =
      accepted-Moves (k.put-Moves s s' d e)
      ∙ accepted-accept d (k.view s)
      ∙ ap (add d) (accepted-Reach r)
      ∙ bag-end ds d
  accepted-Reach (stop {s = s} {s' = s'} r e) = ap accepted (k.stop-same s s' e) ∙ accepted-Reach r
  accepted-Reach (go_on r st) = accepted-Moves (k.Step-Moves st) ∙ accepted-Reach r

  -- When nothing is pending in a state that the sink reaches, exactly the accepted messages are finished.
  pub finished-Reach :
      {ds : List Bytes} {s : k.State}
      → Reach k ds s
      → (k.view s).pending ≡ bag []
      → (k.view s).finished ≡ bag ds
  finished-Reach {s = s} r e = finished-all (k.view s) e ∙ accepted-Reach r

  pub Reach-Goes : {ds : List Bytes} {s s' : k.State} → Reach k ds s → Goes k s s' → Reach k ds s'
  Reach-Goes r still = r
  Reach-Goes r (further g st) = go_on (Reach-Goes r g) st

  pub Goes-Goes : {s s' s'' : k.State} → Goes k s s' → Goes k s' s'' → Goes k s s''
  Goes-Goes g still = g
  Goes-Goes g (further g' st) = further (Goes-Goes g g') st
