-- ===== src/Bus/Retries.antt =====
-- The loops that wait for the broker end, and what they end with.
use bank_of_baroda_iit_gn.Common.{
  ℕ, zero, suc, ◌+◌, ◌*◌, ◌<◌, String, ◌≡◌, ◌∙◌, ap, none, some, Option, List, Result, ok, err,
  arith,
}
use bank_of_baroda_iit_gn.Common.Dict.{Dict}
use bank_of_baroda_iit_gn.Config.{split_comma}
use bank_of_baroda_iit_gn.Bus.{connect, make_consumer, make_producer, topic_of, unavailable}

module _ {C : Type 0} (what : String) (client : ℕ → Result String C) (exc : ℕ → String) where
  connect-step_err :
      (i left slept : ℕ) (last : Option String)
      → client i ≡ err (exc i)
      → connect what client i (suc left) last slept
        ≡ connect what client (i + 1) left (some (exc i)) (slept + 2)
  unfolding connect
  connect-step_err i left slept last e = rw (e, connect)

  connect-step_ok :
      (i left slept : ℕ) (last : Option String) (c : C)
      → client i ≡ ok c
      → connect what client i (suc left) last slept ≡ (ok c, slept)
  unfolding connect
  connect-step_ok i left slept last c e = rw (e, connect)

  connect-first :
      (n i left slept : ℕ) (last : Option String) (c : C)
      → ((j : ℕ) → j < n → client (i + j) ≡ err (exc (i + j)))
      → client (i + n) ≡ ok c
      → n < left
      → connect what client i left last slept ≡ (ok c, slept + 2 * n)
  connect-first n i zero slept last c fails up h = absurd (omega (arith, h))
  connect-first zero i (suc left) slept last c fails up h =
      ground (arith, connect-step_ok i left slept last c (ap client (omega arith) ∙ up))
  connect-first (suc n) i (suc left) slept last c fails up h = ground (
    arith,
    connect-step_err i left slept last (ground (arith, fails 0)),
    connect-first n (i + 1) left (slept + 2) (some (exc i)) c
        (λ j hj. ground (arith, fails (suc j))) (ap client (omega arith) ∙ up) (omega arith),
  )

  connect-all :
      (k i slept : ℕ) (last : Option String)
      → ((j : ℕ) → j < suc k → client (i + j) ≡ err (exc (i + j)))
      → connect what client i (suc k) last slept
        ≡ (err (unavailable what (some (exc (i + k)))), slept + 2 * suc k)
  unfolding connect
  connect-all zero i slept last fails =
      ground (arith, connect-step_err i 0 slept last (ground (arith, fails 0)))
  connect-all (suc k) i slept last fails = ground (
    arith,
    connect-step_err i (suc k) slept last (ground (arith, fails 0)),
    connect-all k (i + 1) (slept + 2) (some (exc i)) (λ j hj. ground (arith, fails (suc j))),
  )

module _ {C : Type 0} (exc : ℕ → String) where
  -- If the broker first accepts a consumer at attempt `n`, and more than `n` attempts are allowed,
  -- make_consumer returns that consumer, after exactly two seconds of waiting for each failure.
  pub consumer_connects :
      (kafka : ℕ → String → String → List String → Result String C)
      → (env : Dict String) (brokers group : String) (retries n : ℕ) (c : C)
      → ((j : ℕ) → j < n → kafka j (topic_of env) group (split_comma brokers) ≡ err (exc j))
      → kafka n (topic_of env) group (split_comma brokers) ≡ ok c
      → n < retries
      → make_consumer kafka env brokers group retries ≡ (ok c, 2 * n)
  unfolding make_consumer
  consumer_connects kafka env brokers group retries n c fails up h = ground (
    arith,
    connect-first "kafka consumer" (λ i. kafka i (topic_of env) group (split_comma brokers)) exc n 0
        retries 0 none c (λ j hj. ground (arith, fails j)) (ground (arith, up)) h,
  )

  -- If every allowed attempt fails, and there is at least one, make_producer ends after two seconds
  -- for each attempt with an error that names the exception of the last one.
  pub producer_gives_up :
      (kafka : ℕ → List String → Result String C) (brokers : String) (k : ℕ)
      → ((j : ℕ) → j < suc k → kafka j (split_comma brokers) ≡ err (exc j))
      → make_producer kafka brokers (suc k)
        ≡ (err (unavailable "kafka producer" (some (exc k))), 2 * suc k)
  unfolding make_producer
  producer_gives_up kafka brokers k fails = ground (
    arith,
    connect-all "kafka producer" (λ i. kafka i (split_comma brokers)) exc k 0 0 none
        (λ j hj. ground (arith, fails j)),
  )
