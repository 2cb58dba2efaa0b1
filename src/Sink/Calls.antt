-- ===== src/Sink/Calls.antt =====
-- The calls that the writers of sink/* make of a client library. What the library does is a parameter: a
-- call changes the state of the service, and tells whether there was no error.
pub mod Laws
use nomad_firehose.Base.{Bool, List, [], ◌∷◌, ◌++◌}

-- The state of the service, and the calls so far, each with its answer.
pub record Calls (S R : Type 0) : Type 0 where
  pub service : S
  pub calls : List (R × Bool)

-- A call; an error is logged, and nothing else is done about it.
unfoldable pub call : {S R : Type 0} → (S → R → S × Bool) → Calls S R → R → Calls S R
call send w r =
    let (service, fine) = send w.service r in
    record { service = service; calls = w.calls ++ (r, fine) ∷ [] }

-- Before the first call.
abbrev pub connected : {S R : Type 0} → S → Calls S R
connected service = record { service = service; calls = [] }
