-- ===== src/Api/Idempotency.antt =====
-- A repeated request is answered from the cache; a different one under the same key is refused.
use bank_of_baroda_iit_gn.Common.{
  ℕ, suc, ◌+◌, ◌<◌, String, ◌≡◌, ◌⊎◌, false, none, some, List, [], ◌∷◌, length, ok, err, arith,
  str_eq, str_eq_iff, Bool-cases, Option-cases, inl, inr, if◌then◌else◌,
}
use bank_of_baroda_iit_gn.Float.{Float}
use bank_of_baroda_iit_gn.Schemas.{IdentityEvent, RiskAssessment, to_client_assessment}
use bank_of_baroda_iit_gn.Engine.Assess.{assess}
use bank_of_baroda_iit_gn.Api.{Config, HttpError, Service}
use bank_of_baroda_iit_gn.Api.Cache.{idem_get, idem_max, idem_store, same_key}
use bank_of_baroda_iit_gn.Api.Cache.Held.{
  Held, Held-get, Held-last, Held-other, Held-store, Held-stored, Held-weaker, same_key-eq,
}
use bank_of_baroda_iit_gn.Api.Events.{
  Request, cache_key, event_fingerprint, ingest_event, ingest_new, record_assessment,
}

-- A call of the endpoint for events: what surrounds it, its caller, and its event.
abbrev pub Posted : Type 0 → Type 0
Posted W = Request W × String × IdentityEvent W

module _ {W : Type 0} ⦃f : Float W⦄ (config : Config W) where
  abbrev fingerprinted : IdentityEvent W → RiskAssessment W → String × RiskAssessment W
  fingerprinted e resp = (event_fingerprint config e, resp)

  ingest_new-stored :
      (r : Request W) (e : IdentityEvent W) (key : String × String) (s : Service W)
      (resp : RiskAssessment W)
      → (ingest_new config r e (some key) s).0 ≡ ok resp
      → (ingest_new config r e (some key) s).1.idem ≡ idem_store key (fingerprinted e resp) s.idem
  unfolding ingest_new record_assessment
  ingest_new-stored r e key s resp h =
      let scored = assess config.engine r.around e s.engine in
      elim (Option-cases scored.0) [
        | inl raised ↦ absurd (ground (arith, raised))
        | inr (soc, found) ↦ ground (arith, found, h)
      ]

  ingest_new-cases :
      (r : Request W) (e : IdentityEvent W) (key : String × String) (s : Service W)
      → ((ingest_new config r e (some key) s).1.idem ≡ s.idem)
        ⊎ ((v : String × RiskAssessment W) × ((ingest_new config r e (some key) s).1.idem
              ≡ idem_store key v s.idem))
  unfolding ingest_new record_assessment
  ingest_new-cases r e key s = elim (Option-cases (assess config.engine r.around e s.engine).0) [
    | inl raised ↦ inl (rw raised)
    | inr (soc, found) ↦ inr (fingerprinted e (to_client_assessment soc), rw found)
  ]

  ingest_new-uncached :
      (r : Request W) (e : IdentityEvent W) (s : Service W)
      → (ingest_new config r e none s).1.idem ≡ s.idem
  unfolding ingest_new record_assessment
  ingest_new-uncached r e s = elim (Option-cases (assess config.engine r.around e s.engine).0) [
    | inl raised ↦ rw raised
    | inr (soc, found) ↦ rw found
  ]

  ingest_event-stored :
      (r : Request W) (client : String) (e : IdentityEvent W) (key : String × String)
      (s : Service W) (resp : RiskAssessment W)
      → cache_key client e.idempotency_key ≡ some key
      → (ingest_event config r client e s).0 ≡ ok resp
      → Held 0 key (fingerprinted e resp) (ingest_event config r client e s).1.idem
  unfolding ingest_event
  ingest_event-stored r client e key s resp keyed h = elim (Option-cases (idem_get key s.idem)) [
    | inl missed ↦
        let answered : (ingest_new config r e (some key) s).0 ≡ ok resp = rw (keyed, missed) at h in
        rw (keyed, missed, ingest_new-stored r e key s resp answered)
          (Held-stored key (fingerprinted e resp) s.idem)
    | inr ((fp, stored), hit) ↦ elim (Bool-cases (str_eq fp (event_fingerprint config e))) [
      | inl same ↦
          let value : (fp, stored) ≡ fingerprinted e resp =
            ground (arith, keyed, hit, same, h, str_eq_iff fp (event_fingerprint config e)) in
          rw (keyed, hit, same, value) (Held-last 0 key (fingerprinted e resp) s.idem)
      | inr other ↦ absurd (ground (arith, keyed, hit, other, h))
    ]
  ]

  missed-apart :
      (n : ℕ) (j k : String × String) (v : String × RiskAssessment W) (s : Service W)
      → Held n k v s.idem
      → idem_get j s.idem ≡ none
      → same_key k j ≡ false
  missed-apart n j k v s held missed = elim (Bool-cases (same_key k j)) [
    | inl same ↦ absurd (cc (missed, Held-get n k v s.idem held, same_key-eq k j same))
    | inr apart ↦ apart
  ]

  -- Another call keeps the response, or puts it last.
  ingest_event-Held :
      (n : ℕ) (k : String × String) (v : String × RiskAssessment W) (r : Request W)
      (client : String) (e : IdentityEvent W) (s : Service W)
      → suc n < idem_max
      → Held n k v s.idem
      → Held (suc n) k v (ingest_event config r client e s).1.idem
  unfolding ingest_event
  ingest_event-Held n k v r client e s room held =
      let kept = Held-weaker n k v s.idem held in
      elim (Option-cases (cache_key client e.idempotency_key)) [
        | inl unkeyed ↦ rw (unkeyed, ingest_new-uncached r e s) kept
        | inr (j, keyed) ↦ elim (Option-cases (idem_get j s.idem)) [
          | inl missed ↦ elim (ingest_new-cases r e j s) [
            | inl same ↦ rw (keyed, missed, same) kept
            | inr (w, new) ↦
                rw (keyed, missed, new)
                  (Held-store n j k v w s.idem (missed-apart n j k v s held missed) room held)
          ]
          | inr ((fp, stored), hit) ↦ elim (Bool-cases (str_eq fp (event_fingerprint config e))) [
            | inl same ↦
                rw (keyed, hit, same)
                  (elim (Bool-cases (same_key k j)) [
                    | inl own ↦
                        let value : (fp, stored) ≡ v =
                          cc (hit, Held-get n k v s.idem held, same_key-eq k j own) in
                        rw (← same_key-eq k j own, value) (Held-last (suc n) k v s.idem)
                    | inr apart ↦ Held-other n j k v (fp, stored) s.idem apart held
                  ])
            | inr other ↦ rw (keyed, hit, other) kept
          ]
        ]
      ]

  -- The service after some calls.
  pub after_events : List (Posted W) → Service W → Service W
  after_events [] s = s
  after_events ((r, client, e) ∷ calls) s = after_events calls (ingest_event config r client e s).1

  after_events-Held :
      (calls : List (Posted W)) (n : ℕ) (k : String × String) (v : String × RiskAssessment W)
      (s : Service W)
      → n + length calls < idem_max
      → Held n k v s.idem
      → (m : ℕ) × Held m k v (after_events calls s).idem
  unfolding after_events
  after_events-Held [] n k v s room held = (n, held)
  after_events-Held ((r, client, e) ∷ calls) n k v s room held =
      after_events-Held calls (suc n) k v (ingest_event config r client e s).1 (omega (arith, room))
        (ingest_event-Held n k v r client e s (omega (arith, room)) held)

  -- Once an event with an idempotency key was answered, and fewer than 10000 other calls of any
  -- callers came after it, the same caller's event under that key gets the same answer if it has the
  -- same fingerprint and is refused with a conflict otherwise; neither is scored, logged or stored.
  pub repeat_is_answered :
      (r again : Request W) (client : String) (e later : IdentityEvent W) (key : String × String)
      (s : Service W) (resp : RiskAssessment W) (calls : List (Posted W))
      → length calls < idem_max
      → cache_key client e.idempotency_key ≡ some key
      → later.idempotency_key ≡ e.idempotency_key
      → (ingest_event config r client e s).0 ≡ ok resp
      → let before = after_events calls (ingest_event config r client e s).1 in
        let (response, final) = ingest_event config again client later before in
        (response ≡ (
          if str_eq (event_fingerprint config e) (event_fingerprint config later)
          then ok resp
          else err HttpError.conflict))
        × (final.engine ≡ before.engine)
        × (final.audit ≡ before.audit)
        × (final.pii ≡ before.pii)
  unfolding ingest_event
  repeat_is_answered r again client e later key s resp calls few keyed same answered =
      let first = ingest_event-stored r client e key s resp keyed answered in
      let (m, held) =
        after_events-Held calls 0 key (fingerprinted e resp) (ingest_event config r client e s).1
          (omega (arith, few)) first in
      ground (
        arith,
        keyed,
        same,
        Held-get m key (fingerprinted e resp)
            (after_events calls (ingest_event config r client e s).1).idem held,
      )
