-- ===== src/Sink/Redis.antt =====
-- sink/redis.go. The server and the pool of connections are parameters.
pub mod Laws
use nomad_firehose.Base.{
  length, ℕ, suc, ◌<◌, ◌≡◌, ◌+◌, true, false, Bool, List, [], ◌∷◌, String, if◌then◌else◌,
}
use nomad_firehose.Go.Value.{Bytes}
use nomad_firehose.Sink.Start.{Started}
use nomad_firehose.Sink.Calls.{Calls, call, connected}
use nomad_firehose.Sink.Service.{service_sink}
use nomad_firehose.Sink.Interface.{SinkInterface}

unfoldable pub start : Started
start = record { writers = 0 ∷ []; batches = false; waits = true }

abbrev pub max_active : ℕ
max_active = 2

-- What the writer relies on of `redis.Pool`. `available` says that the pool is not closed, and that it has an
-- idle connection or can dial one: then `Get` gives a connection while fewer than `MaxActive` are in use. When
-- it does not, `Get` gives one that only has an error, which is not in use; the flag tells the two apart.
-- `Close` of a connection gives it back.
pub record Pool : Type 1 where
  pub Conns : Type 0
  pub in_use : Conns → ℕ
  pub available : Conns → Bool
  pub get : Conns → Conns × Bool
  pub give_back : Conns → Conns
  pub get_true : (c : Conns) → available c ≡ true → in_use c < max_active → (get c).1 ≡ true
  pub in_use-get : (c : Conns) → (get c).1 ≡ true → in_use (get c).0 ≡ suc (in_use c)
  pub in_use-give_back : (c : Conns) (n : ℕ) → in_use c ≡ suc n → in_use (give_back c) ≡ n

-- RPUSH of a message to the list at a key.
abbrev pub Push : Type 0
Push = String × Bytes

-- The commands that the connections were given, the state of the pool, and how often it gave none.
pub record Pushing (p : Pool) (S : Type 0) : Type 0 where
  pub pushes : Calls S Push
  pub conns : p.Conns
  pub refused : ℕ

module _ (p : Pool) {S : Type 0} (rpush : S → Push → S × Bool) (key : String) where
  -- The body of the loop of `write`. Without a connection, `Do` fails and `Close` does nothing.
  unfoldable pub write : Pushing p S → Bytes → Pushing p S
  unfolding call
  write w d =
      let (conns, got) = p.get w.conns in
      if got
      then record {
        pushes = call rpush w.pushes (key, d);
        conns = p.give_back conns;
        refused = w.refused;
      }
      else record w { conns = conns; refused = w.refused + 1 }

-- `Stop` ends with the closing of the pool.
unfoldable pub close : {p : Pool} {S : Type 0} → (p.Conns → p.Conns) → Pushing p S → Pushing p S
close close_pool w = record w { conns = close_pool w.conns }

module _ (p : Pool) {S : Type 0} (rpush : S → Push → S × Bool) (close_pool : p.Conns → p.Conns)
    (key : String) (conns : p.Conns) where
  -- The sink as a whole, of a client in that state.
  abbrev pub implementation : S → SinkInterface
  implementation service =
      service_sink start (length start.writers) (write p rpush key) (close close_pool)
        (record { pushes = connected service; conns = conns; refused = 0 })
