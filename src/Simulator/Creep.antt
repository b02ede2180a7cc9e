-- ===== src/Simulator/Creep.antt =====
-- What the profile of the victim learns from a hijacked session.
use mathlib.Core.List.{append_assoc, append-nil}
use bank_of_baroda_iit_gn.Common.{
  ℕ, zero, suc, ◌+◌, String, ◌≡◌, not, refl, some, List, [], ◌∷◌, ◌++◌, arith, Option-cases,
  Bool-cases, inl, inr, if◌then◌else◌,
}
use bank_of_baroda_iit_gn.Float.{Float}
use bank_of_baroda_iit_gn.Schemas.{SocAssessment, is_allow}
use bank_of_baroda_iit_gn.State.{load}
use bank_of_baroda_iit_gn.Engine.Trust.{TrustEngine}
use bank_of_baroda_iit_gn.Engine.Assess.{EngineState, assess}
use bank_of_baroda_iit_gn.Engine.Assess.Learned.{assess-IsLearned}
use bank_of_baroda_iit_gn.Simulator.{Day, Session, creep, creep_event}

-- How many sessions were not caught.
pub missed : {W : Type 0} → List (Session W) → ℕ
missed [] = 0
missed (t ∷ ts) = if t.caught then missed ts else suc (missed ts)

-- The amounts of the sessions that were not caught, from this amount on.
pub missed_amounts : {W : Type 0} ⦃f : Float W⦄ → W → List (Session W) → List W
missed_amounts amount [] = []
missed_amounts ⦃f⦄ amount (t ∷ ts) =
    let rest = missed_amounts (f.mul amount (f.lit 125 2)) ts in
    if t.caught then rest else amount ∷ rest

module _ {W : Type 0} ⦃f : Float W⦄ (engine : TrustEngine W) (day : Day W) (identity : String) where
  open f use {mul, lit}

  -- What a turn of the loop that does not raise consists of.
  record IsTurn (n i : ℕ) (amount : W) (s after : EngineState W) (trajectory : List (Session W))
      : Type 0 where
    first : Session W
    others : List (Session W)
    shape : trajectory ≡ first ∷ others
    soc : SocAssessment W
    returned :
        (assess engine (day.around (10 + i)) (creep_event engine day identity i amount) s).0
        ≡ some soc
    verdict : first.caught ≡ not (is_allow soc.decision)
    rest :
        creep engine day identity n
          (suc i)
          (mul amount (lit 125 2))
          (assess engine (day.around (10 + i)) (creep_event engine day identity i amount) s).1
        ≡ some (others, after)

  creep-IsTurn :
      (n i : ℕ) (amount : W) (s after : EngineState W) (trajectory : List (Session W))
      → creep engine day identity (suc n) i amount s ≡ some (trajectory, after)
      → IsTurn n i amount s after trajectory
  unfolding creep
  creep-IsTurn n i amount s after trajectory h =
      let (answer, next) =
        assess engine (day.around (10 + i)) (creep_event engine day identity i amount) s in
      let later = creep engine day identity n (suc i) (mul amount (lit 125 2)) next in
      elim (Option-cases answer) [
        | inl raised ↦ absurd (ground (arith, raised, h))
        | inr (soc, returned) ↦ elim (Option-cases (day.round_int amount)) [
          | inl unrounded ↦ absurd (ground (arith, returned, unrounded, h))
          | inr (z, rounded) ↦ elim (Option-cases later) [
            | inl lost ↦ absurd (ground (arith, returned, rounded, lost, h))
            | inr ((others, end), found) ↦ record {
              first = record {
                session = i;
                amount = z;
                trust = soc.trust_score;
                event_risk = day.round3 soc.event_risk;
                decision = soc.decision;
                caught = not (is_allow soc.decision);
              };
              others = others;
              shape = ground (arith, returned, rounded, found, h);
              soc = soc;
              returned = returned;
              verdict = refl;
              rest = ground (arith, returned, rounded, found, h);
            }
          ]
        ]
      ]

  -- If nobody else writes and no session raises, the profile of the victim grows by exactly the
  -- sessions that were not caught: as many events, and their amounts in order.
  pub creep_learns :
      ((k : ℕ) → (day.around k).rivals ≡ (λ j st. st))
      → (n i : ℕ) (amount : W) (s after : EngineState W) (trajectory : List (Session W))
      → creep engine day identity n i amount s ≡ some (trajectory, after)
      → ((load after.store identity).event_count
          ≡ (load s.store identity).event_count + missed trajectory)
        × ((load after.store identity).amounts
            ≡ (load s.store identity).amounts ++ missed_amounts amount trajectory)
  unfolding creep creep_event missed missed_amounts
  creep_learns alone zero i amount s after trajectory h =
      (ground (arith, h), ground (arith, h, append-nil (load s.store identity).amounts))
  creep_learns alone (suc n) i amount s after trajectory h =
      let turn = creep-IsTurn n i amount s after trajectory h in
      let e = creep_event engine day identity i amount in
      let now = day.around (10 + i) in
      let learned = assess-IsLearned engine e now s turn.soc (alone (10 + i)) turn.returned in
      let (events, amounts) =
        creep_learns alone n (suc i) (mul amount (lit 125 2)) (assess engine now e s).1 after
          turn.others turn.rest in
      elim (Bool-cases (is_allow turn.soc.decision)) [
        | inl allowed ↦
            let more = missed_amounts (mul amount (lit 125 2)) turn.others in
            let joined = append_assoc (load s.store identity).amounts (amount ∷ []) more in
            rw turn.shape (
              ground (arith, events, learned.events, turn.verdict, allowed),
              ground (arith, amounts, learned.amounts, turn.verdict, allowed, joined),
            )
        | inr caught ↦ rw turn.shape (
          ground (arith, events, learned.events, turn.verdict, caught),
          ground (arith, amounts, learned.amounts, turn.verdict, caught),
        )
      ]
