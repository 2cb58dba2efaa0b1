-- ===== src/Sink/Http/Laws.antt =====
-- The requests and the open bodies of the writer of sink/http.go.
use nomad_firehose.Base.{
  ℕ, ◌≡◌, refl, Bool, List, [], ◌∷◌, ◌++◌, map, foldl, length, length-append, select, select-append,
  arith, Bool-cases, inl, inr, ap, ◌∙◌, append-nil, sym, append_assoc,
}
use nomad_firehose.Go.Value.{Bytes}
use nomad_firehose.Sink.Calls.Laws.{requests, requests-call}
use nomad_firehose.Sink.Http.{HttpSink, Post, Posting, send}

-- How many requests were answered without an error.
abbrev pub answered : {S : Type 0} → Posting S → ℕ
answered w = length (select (λ c. c.1) w.posts.calls)

module _ {S : Type 0} (post : S → Post → S × Bool) (s : HttpSink) where
  -- Each answered request has left its body open.
  abbrev Open : Posting S → Type 0
  Open w = w.deferred ≡ answered w

  send-Open : (w : Posting S) (d : Bytes) → Open w → Open (send post s w d)
  unfolding send
  send-Open w d h = elim (Bool-cases (post w.posts.service (s.address, d)).1) [
    | inl fine ↦
        rw (select-append (λ c. c.1) w.posts.calls, fine)
          (omega (arith, length-append {0} (select (λ c. c.1) w.posts.calls)))
    | inr failed ↦
        rw
          (
            select-append (λ c. c.1) w.posts.calls,
            failed,
            append-nil (select (λ c. c.1) w.posts.calls),
          )
          h
  ]

  loop-Open : (w : Posting S) (ds : List Bytes) → Open w → Open (foldl (send post s) w ds)
  loop-Open w [] h = h
  loop-Open w (d ∷ ds) h = loop-Open (send post s w d) ds (send-Open w d h)

  send_posts :
      (w : Posting S) (d : Bytes)
      → requests (send post s w d).posts ≡ requests w.posts ++ (s.address, d) ∷ []
  unfolding send
  send_posts w d = requests-call post w.posts (s.address, d)

  loop_posts :
      (w : Posting S) (ds : List Bytes)
      → requests (foldl (send post s) w ds).posts ≡ requests w.posts ++ map (λ d. (s.address, d)) ds
  loop_posts w [] = sym (append-nil (requests w.posts))
  loop_posts w (d ∷ ds) =
      loop_posts (send post s w d) ds
      ∙ ap (λ l. l ++ map (λ d'. (s.address, d')) ds) (send_posts w d)
      ∙ append_assoc (requests w.posts) ((s.address, d) ∷ []) (map (λ d'. (s.address, d')) ds)

  -- Over any messages, a writer of the HTTP sink posts each of them to the configured address, in
  -- order, and the body of every request that was answered without an error is still open: the
  -- deferred `Close` never runs.
  pub bodies_stay_open :
      (service : S) (ds : List Bytes)
      → let w =
          foldl
            (send post s)
            (record { posts = record { service = service; calls = [] }; deferred = 0 })
            ds in
        (requests w.posts ≡ map (λ d. (s.address, d)) ds) × (w.deferred ≡ answered w)
  bodies_stay_open service ds = (loop_posts _ ds, loop-Open _ ds refl)
