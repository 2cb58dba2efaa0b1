-- ===== src/Sink/Redis/Laws.antt =====
-- The commands and the connections of the writer of sink/redis.go.
use nomad_firehose.Base.{
  true, subst, suc, ◌≡◌, refl, sym, ap, ◌∙◌, Bool, List, [], ◌∷◌, ◌++◌, map, foldl, String,
  append-nil, append_assoc, arith,
}
use nomad_firehose.Go.Value.{Bytes}
use nomad_firehose.Sink.Calls.{call}
use nomad_firehose.Sink.Calls.Laws.{requests, requests-call}
use nomad_firehose.Sink.Redis.{Pool, Push, Pushing, write}

module _ (p : Pool) {S : Type 0} (rpush : S → Push → S × Bool) (key : String) where
  write_lem :
      (w : Pushing p S) (d : Bytes)
      → p.in_use w.conns ≡ 0
      → p.available w.conns ≡ true
      → write p rpush key w d ≡ record {
        pushes = call rpush w.pushes (key, d);
        conns = p.give_back (p.get w.conns).0;
        refused = w.refused;
      }
  unfolding write
  write_lem w d e up = rw (p.get_true w.conns up (omega arith)) refl

  -- The pool is available whenever the writer asks it for a connection.
  abbrev pub StaysUp : Pushing p S → List Bytes → Type 0
  StaysUp w [] = Unit
  StaysUp w (d ∷ ds) = (p.available w.conns ≡ true) × StaysUp (write p rpush key w d) ds

  -- From a state in which no connection is in use, over any messages, when the pool is open and
  -- can give a connection, an idle one or a new one, each time that it is asked, the writer of
  -- the Redis sink is never without a connection, pushes every message to the configured key in
  -- order, and has no connection in use at the end, whatever the server answers.
  pub connections_given_back :
      (w : Pushing p S) (ds : List Bytes)
      → p.in_use w.conns ≡ 0
      → StaysUp w ds
      → let w' = foldl (write p rpush key) w ds in
        (p.in_use w'.conns ≡ 0)
        × (w'.refused ≡ w.refused)
        × (requests w'.pushes ≡ requests w.pushes ++ map (λ d. (key, d)) ds)
  connections_given_back w [] e up = (e, refl, sym (append-nil (requests w.pushes)))
  connections_given_back w (d ∷ ds) e up =
      let w1 : Pushing p S = record {
        pushes = call rpush w.pushes (key, d);
        conns = p.give_back (p.get w.conns).0;
        refused = w.refused;
      } in
      let back : p.in_use w1.conns ≡ 0 =
        p.in_use-give_back (p.get w.conns).0 0
          (p.in_use-get w.conns (p.get_true w.conns up.0 (omega arith)) ∙ ap suc e) in
      let (u, r, q) =
        connections_given_back w1 ds back (subst (λ v. StaysUp v ds) (write_lem w d e up.0) up.1) in
      rw (foldl, write_lem w d e up.0)
        (
          u,
          r,
          q
              ∙ ap (λ l. l ++ map (λ d'. (key, d')) ds) (requests-call rpush w.pushes (key, d))
              ∙ append_assoc (requests w.pushes) ((key, d) ∷ []) (map (λ d'. (key, d')) ds),
        )
