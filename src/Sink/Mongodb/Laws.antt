-- ===== src/Sink/Mongodb/Laws.antt =====
-- The documents that the writer of sink/mongodb.go inserts.
use nomad_firehose.Base.{
  ◌≡◌, sym, Bool, List, [], ◌∷◌, ◌++◌, foldl, gather, Option, none, some, Option-cases, inl, inr,
  append-nil,
}
use nomad_firehose.Go.Value.{Bytes}
use nomad_firehose.Sink.Calls.{Calls}
use nomad_firehose.Sink.Calls.Laws.{requests, requests-call, loop_requests}
use nomad_firehose.Sink.Mongodb.{MongodbSink, Insert, write}

module _ {S Doc : Type 0} (unmarshal : Bytes → Option Doc) (insert_one : S → Insert Doc → S × Bool)
    (s : MongodbSink) where
  -- The inserts that a message stands for.
  abbrev pub inserts_of : Bytes → List (Insert Doc)
  inserts_of d = elim (unmarshal d) [ none ↦ [] | some m ↦ (s.database, s.collection, m) ∷ [] ]

  requests-write :
      (w : Calls S (Insert Doc)) (d : Bytes)
      → requests (write unmarshal insert_one s w d) ≡ requests w ++ inserts_of d
  unfolding write
  requests-write w d = elim (Option-cases (unmarshal d)) [
    | inl e ↦ rw (write, inserts_of, e) (sym (append-nil (requests w)))
    | inr (m, e) ↦
        rw (write, inserts_of, e) (requests-call insert_one w (s.database, s.collection, m))
  ]

  -- For any answers of the database, the inserts of a writer of the MongoDB sink over any
  -- messages are the documents of those that `json.Unmarshal` reads, in their order, each for the
  -- configured database and collection; the others are dropped.
  pub inserts_decoded :
      (service : S) (ds : List Bytes)
      → requests
          (foldl (write unmarshal insert_one s) (record { service = service; calls = [] }) ds)
        ≡ gather inserts_of ds
  inserts_decoded service ds =
      loop_requests inserts_of (write unmarshal insert_one s) requests-write
        (record { service = service; calls = [] }) ds
