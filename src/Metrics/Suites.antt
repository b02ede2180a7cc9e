-- ===== src/Metrics/Suites.antt =====
-- The three scripts agree, and the sampled confusion matrix counts every event once.
use bank_of_baroda_iit_gn.Common.{ℕ, ◌≡◌, refl, Option, none, some, List, arith}
use bank_of_baroda_iit_gn.Common.Int.{ℤ, pos, ◌+ℤ◌, ◌-ℤ◌, int_laws}
use bank_of_baroda_iit_gn.Float.{Float}
use bank_of_baroda_iit_gn.Metrics.{
  Confusion, Numerics, Point, at_fpr, confusion_at, count, curves, evaluate_confusion, op_at_fpr,
  recall_at, recall_of_scores, roc_pack, sampled,
}

complement : (a p : ℤ) → a +ℤ (p -ℤ a) ≡ p
complement a p = omega int_laws

module _ {W : Type 0} ⦃f : Float W⦄ (np : Numerics W) where
  abbrev recall_of : Option (Point W) → Option W
  recall_of none = none
  recall_of (some p) = some p.recall

  -- On one table of scores, pramaan_eval.py and eval_full.py read the same operating point from
  -- their curves, and eval_full.py and seed_sweep.py read the same recall.
  pub suites_agree :
      (y : List ℕ) (s : List W) (rate target : W)
      → let pack = roc_pack np y s rate in
        let (fpr, tpr, thr, precision) = curves np y s rate in
        (at_fpr np fpr tpr thr precision target
          ≡ (op_at_fpr np pack.fpr pack.tpr pack.thr pack.precision target).1)
        × (recall_at np pack.fpr pack.tpr target ≡ recall_of_scores np y s target)
  unfolding roc_pack curves at_fpr op_at_fpr recall_at recall_of_scores
  suites_agree y s rate target = (refl, refl)

  sampled_totals :
      (p n : ℕ) (tp fp : Option ℤ) (c : Confusion)
      → sampled np p n tp fp ≡ some c
      → (c.tp +ℤ c.fn ≡ pos p) × (c.fp +ℤ c.tn ≡ pos n)
  sampled_totals p n none fp c h = cc (h)
  sampled_totals p n (some tp) none c h = cc (h)
  sampled_totals p n (some tp) (some fp) c h =
      ground (arith, complement tp (pos p), complement fp (pos n))

  confusion_at_totals :
      (p n : ℕ) (op : Option (Point W)) (c : Confusion)
      → confusion_at np p n op ≡ some c
      → (c.tp +ℤ c.fn ≡ pos p) × (c.fp +ℤ c.tn ≡ pos n)
  confusion_at_totals p n none c h = cc (h)
  confusion_at_totals p n (some op) c h = sampled_totals p n _ _ c h

  -- Where evaluate gives a confusion matrix, its true positives and false negatives are all the
  -- events labelled 1, and its false positives and true negatives all those labelled 0.
  pub confusion_totals :
      (y : List ℕ) (s : List W) (rate budget : W) (c : Confusion)
      → evaluate_confusion np y s rate budget ≡ some c
      → (c.tp +ℤ c.fn ≡ pos (count 1 y)) × (c.fp +ℤ c.tn ≡ pos (count 0 y))
  unfolding evaluate_confusion
  confusion_totals y s rate budget c h = confusion_at_totals (count 1 y) (count 0 y) _ c h
