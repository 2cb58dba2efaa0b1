-- ===== src/Helper/Consul.antt =====
-- What the manager uses of the Consul client: the KV store, with its documented behaviour. The store
-- is a parameter.
use nomad_firehose.Base.{◌≡◌, ◌≢◌, Bool, true, Option, some, String}
use nomad_firehose.Go.Value.{Bytes}

pub record Consul : Type 1 where
  pub Store : Type 0
  -- `none` is an error; `some none` is a missing pair, or one with no value.
  pub get : Store → String → Option (Option Bytes)
  -- The flag says that there was no error.
  pub put : Store → String → Bytes → Store × Bool
  -- A value that was put without an error is there.
  pub get-put :
      (s : Store) (key : String) (value : Bytes)
      → (put s key value).1 ≡ true
      → get (put s key value).0 key ≡ some (some value)
  -- A put leaves the other keys alone.
  pub get-put_other :
      (s : Store) (key other : String) (value : Bytes)
      → key ≢ other
      → get (put s key value).0 other ≡ get s other
