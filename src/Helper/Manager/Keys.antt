-- ===== src/Helper/Manager/Keys.antt =====
-- The keys of helper/manager.go in Consul.
use text.Mathlib.TextLemmas.{append_cancel_left, append_cancel_right}
use nomad_firehose.Base.{◌≡◌, ◌≢◌, List, String}
use nomad_firehose.Helper.Consul.{Consul}
use nomad_firehose.Helper.Manager.{Event, lead, value_key}
use nomad_firehose.Helper.Manager.Terms.{lead_keeps}

-- The key tells the name.
value_key_injective : (prefix a b : String) → value_key prefix a ≡ value_key prefix b → a ≡ b
unfolding value_key
value_key_injective prefix a b e =
    append_cancel_right a b ".value" (append_cancel_left "/" _ _ (append_cancel_left prefix _ _ e))

-- A term of leadership of one firehose leaves the value that another one, of a different name,
-- keeps under the same prefix in Consul as it was, whatever comes in on its channels.
pub firehoses_apart :
    (c : Consul) (prefix a b : String) (s : c.Store) (es : List Event)
    → a ≢ b
    → c.get (lead c (value_key prefix a) s es).0 (value_key prefix b) ≡ c.get s (value_key prefix b)
firehoses_apart c prefix a b s es ne =
    lead_keeps c (value_key prefix a) (value_key prefix b) s es
      (λ e. ne (value_key_injective prefix a b e))
