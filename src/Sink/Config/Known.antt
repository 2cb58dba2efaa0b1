-- ===== src/Sink/Config/Known.antt =====
-- The values of `SINK_TYPE` in sink/helper.go.
use text.Mathlib.Text.{◌==◌ as str_eq}
use text.Mathlib.TextEquality.{eq_iff}
use nomad_firehose.Base.{◌≡◌, ◌≢◌, inl, inr, false, List, [], ◌∷◌, String, Bool-cases, All}
use nomad_firehose.Sink.Config.{Env, Services, err, invalid_type, get_sink}

abbrev pub known_types : List String
known_types =
    "amqp" ∷ "http" ∷ "kafka" ∷ "kinesis" ∷ "mongodb" ∷ "nsq" ∷ "rabbitmq" ∷ "redis" ∷ "stdout"
    ∷ "syslog" ∷ "sqs" ∷ "eventbridge" ∷ []

str_ne : (a b : String) → a ≢ b → str_eq a b ≡ false
str_ne a b ne = elim (Bool-cases (str_eq a b)) [
  | inl e ↦ absurd (ne ((eq_iff a b).0 e))
  | inr d ↦ d
]

pub apart : (a b : String) → str_eq a b ≡ false → a ≢ b
apart a b d e = cc (d, (eq_iff a b).1 e)

-- When `SINK_TYPE` is set and is none of the twelve known types, `GetSink` gives the error for an
-- invalid type, whatever else is set.
pub get_sink_unknown :
    (services : Services) (env : Env) (resource : String)
    → env "SINK_TYPE" ≢ ""
    → All (λ t. env "SINK_TYPE" ≢ t) known_types
    → get_sink services env resource ≡ err (invalid_type (env "SINK_TYPE"))
unfolding get_sink
get_sink_unknown services env resource set unknown =
    let t = env "SINK_TYPE" in
    rw (
      str_ne t "" set,
      str_ne t "amqp" unknown.0,
      str_ne t "http" unknown.1.0,
      str_ne t "kafka" unknown.1.1.0,
      str_ne t "kinesis" unknown.1.1.1.0,
      str_ne t "mongodb" unknown.1.1.1.1.0,
      str_ne t "nsq" unknown.1.1.1.1.1.0,
      str_ne t "rabbitmq" unknown.1.1.1.1.1.1.0,
      str_ne t "redis" unknown.1.1.1.1.1.1.1.0,
      str_ne t "stdout" unknown.1.1.1.1.1.1.1.1.0,
      str_ne t "syslog" unknown.1.1.1.1.1.1.1.1.1.0,
      str_ne t "sqs" unknown.1.1.1.1.1.1.1.1.1.1.0,
      str_ne t "eventbridge" unknown.1.1.1.1.1.1.1.1.1.1.1.0,
    )
