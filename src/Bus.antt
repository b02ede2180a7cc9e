-- ===== src/Bus.antt =====
-- backend/app/bus.py: how the ingress and the pods reach the Kafka broker. The client library is a
-- parameter: what each attempt at building a client gives, a client or the text of an exception.
pub mod Retries
use Prim.Native.String.{◌++◌}
use Prim.Native.Char.{code}
use bank_of_baroda_iit_gn.Common.{
  ℕ, zero, suc, ◌+◌, String, Option, none, some, List, [], ◌∷◌, Result, ok, err, ◌==◌,
  if◌then◌else◌,
}
use bank_of_baroda_iit_gn.Common.Dict.{Dict, lookup}
use bank_of_baroda_iit_gn.Config.{split_comma}

-- `os.environ.get("PRAMAAN_EVENTS_TOPIC", "pramaan.events")`
unfoldable pub topic_of : Dict String → String
topic_of env = elim (lookup "PRAMAAN_EVENTS_TOPIC" env) [ none ↦ "pramaan.events" | some t ↦ t ]

-- The text of a `RuntimeError`: `{last}` is `None` where no attempt was made.
abbrev pub unavailable : String → Option String → String
unavailable what none = what ++ " unavailable after retries: None"
unavailable what (some exc) = what ++ " unavailable after retries: " ++ exc

module _ {C : Type 0} where
  -- The loop from attempt `i`, with `left` attempts to go: its result and the seconds slept.
  unfoldable pub connect :
      String → (ℕ → Result String C) → ℕ → ℕ → Option String → ℕ → Result String C × ℕ
  connect what client i zero last slept = (err (unavailable what last), slept)
  connect what client i (suc left) last slept = elim (client i) [
    | ok c ↦ (ok c, slept)
    | err exc ↦ connect what client (i + 1) left (some exc) (slept + 2)
  ]

  -- `make_producer`: `kafka` is given the attempt's number and the bootstrap servers.
  unfoldable pub make_producer :
      (ℕ → List String → Result String C) → String → ℕ → Result String C × ℕ
  unfolding connect split_comma
  make_producer kafka brokers retries =
      connect "kafka producer" (λ i. kafka i (split_comma brokers)) 0 retries none 0

  -- `make_consumer`: the topic and the group come first.
  unfoldable pub make_consumer :
      (ℕ → String → String → List String → Result String C)
      → Dict String
      → String
      → String
      → ℕ
      → Result String C × ℕ
  unfolding connect split_comma topic_of
  make_consumer kafka env brokers group retries =
      connect "kafka consumer" (λ i. kafka i (topic_of env) group (split_comma brokers)) 0 retries
        none 0

-- The default of `retries`.
abbrev pub default_retries : ℕ
default_retries = 40
