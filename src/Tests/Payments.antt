-- ===== src/Tests/Payments.antt =====
-- The theorem on the scores of the payments at a concrete table.
use bank_of_baroda_iit_gn.Common.{
  ℕ, zero, suc, ◌+◌, String, ap, sym, ◌++◌, ◌≡◌, refl, ◌∙◌, some, List, [], ◌∷◌, map, length, take,
  get_elem?, arith,
}
use bank_of_baroda_iit_gn.Common.Int.{pos}
use bank_of_baroda_iit_gn.Float.Fixed.{Fixed, fixed_float}
use bank_of_baroda_iit_gn.Training.UserDays.{count_if}
use bank_of_baroda_iit_gn.Training.PaySim.{Payment, Tools, paysim_features, paysim_fit}
use bank_of_baroda_iit_gn.Training.PaySim.Leakage.{
  IsTools, occurrence_moves, none_later, numbered, occurrences, relabelled,
  scores_ignore_test_labels, scores_of,
}

abbrev tools : Tools Fixed
tools = record {
  cumcount = numbered [];
  log1p = λ x. x;
  float32 = λ x. x;
  clip_0_5 = λ x. x;
  is_close = fixed_float.eq;
  sample = λ n rows. some rows;
  fit_predict = λ train test. map (λ r. fixed_float.of_int (pos (length train))) test;
}

length-numbered : (past ks : List String) → length (numbered past ks) ≡ length ks
unfolding numbered
length-numbered past [] = refl
length-numbered past (k ∷ ks) = ap suc (length-numbered (k ∷ past) ks)

numbered_at :
    (past ks : List String) (i : ℕ) (k : String)
    → get_elem? ks i ≡ some k
    → get_elem? (numbered past ks) i ≡ some (occurrences k past + occurrences k (take i ks))
unfolding numbered
numbered_at past [] i k found = cc (found)
numbered_at past (j ∷ ks) zero k found = cc (found, none_later k past)
numbered_at past (j ∷ ks) (suc i) k found =
    numbered_at (j ∷ past) ks i k found ∙ ap some (sym (occurrence_moves k j past (take i ks)))

tools-IsTools : IsTools tools
unfolding count_if
tools-IsTools = record {
  cumcount_length = length-numbered [];
  cumcount_at = λ ks i k found. numbered_at [] ks i k found ∙ ap some (omega arith);
}

abbrev payment : ℕ → String → ℕ → Payment Fixed
payment step from fraud = record {
  step = step;
  kind = "TRANSFER";
  amount = fixed_float.lit 5 0;
  name_orig = from;
  old_balance_orig = fixed_float.lit 9 0;
  new_balance_orig = fixed_float.lit 4 0;
  name_dest = "M1";
  old_balance_dest = fixed_float.lit 0 0;
  new_balance_dest = fixed_float.lit 5 0;
  is_fraud = fraud;
  is_flagged_fraud = 0;
}

abbrev early : List (Payment Fixed)
early = payment 1 "C1" 1 ∷ payment 2 "C2" 0 ∷ []

abbrev late : List (Payment Fixed)
late = payment 601 "C1" 0 ∷ []

scores_ignore_test_labels_example :
    scores_of (paysim_fit tools (paysim_features tools (early ++ relabelled ((1, 1) ∷ []) late)))
    ≡ scores_of (paysim_fit tools (paysim_features tools (early ++ late)))
scores_ignore_test_labels_example =
    scores_ignore_test_labels tools tools-IsTools ((1, 1) ∷ []) early late (omega arith, tt)
