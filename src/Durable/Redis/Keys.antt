-- ===== src/Durable/Redis/Keys.antt =====
-- The keys of two identities, or of two devices, are different keys of Redis.
use Prim.Native.String.{◌++◌}
use text.Mathlib.TextLemmas.{append_cancel_left}
use bank_of_baroda_iit_gn.Common.{
  String, ◌≡◌, ap, ◌∙◌, sym, str_eq, str_eq_iff, Bool-cases, inl, inr,
}
use bank_of_baroda_iit_gn.Durable.Redis.{dev_key, id_key}

-- A function that joins no two keys keeps their comparison.
str_eq_injective :
    (key : String → String) (a b : String)
    → (key a ≡ key b → a ≡ b)
    → str_eq (key a) (key b) ≡ str_eq a b
str_eq_injective key a b inj = elim (Bool-cases (str_eq (key a) (key b))) [
  | inl e ↦ e ∙ sym ((str_eq_iff a b).1 (inj ((str_eq_iff (key a) (key b)).0 e)))
  | inr e ↦ elim (Bool-cases (str_eq a b)) [
    | inl same ↦ (str_eq_iff (key a) (key b)).1 (ap key ((str_eq_iff a b).0 same)) ∙ sym same
    | inr other ↦ e ∙ sym other
  ]
]

pub id_key_eq : (ns a b : String) → str_eq (id_key ns a) (id_key ns b) ≡ str_eq a b
id_key_eq ns a b =
    str_eq_injective (id_key ns) a b
      (λ e. append_cancel_left ":id:" a b (append_cancel_left ns (":id:" ++ a) (":id:" ++ b) e))

pub dev_key_eq : (ns a b : String) → str_eq (dev_key ns a) (dev_key ns b) ≡ str_eq a b
dev_key_eq ns a b =
    str_eq_injective (dev_key ns) a b
      (λ e. append_cancel_left ":dev:" a b (append_cancel_left ns (":dev:" ++ a) (":dev:" ++ b) e))
