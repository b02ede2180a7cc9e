-- ===== src/Tests/Texts.antt =====
-- The texts of tokens at concrete bytes.
use bank_of_baroda_iit_gn.Common.{◌≡◌, refl, some, [], ◌∷◌, arith}
use bank_of_baroda_iit_gn.Verifier.Base64.{b64d, b64e, digit}
use bank_of_baroda_iit_gn.Verifier.Base64.RoundTrip.{b64d-b64e}

-- "TWE", without its padding.
two_bytes : b64e (77 ∷ 97 ∷ []) ≡ 84 ∷ 87 ∷ 69 ∷ []
unfolding b64e digit
two_bytes = refl

-- The characters of the other alphabet are read alike.
other_alphabet : b64d (43 ∷ 47 ∷ []) ≡ b64d (45 ∷ 95 ∷ [])
unfolding b64d
other_alphabet = refl

b64d-b64e_example : b64d (b64e (255 ∷ 254 ∷ 0 ∷ 7 ∷ [])) ≡ some (255 ∷ 254 ∷ 0 ∷ 7 ∷ [])
b64d-b64e_example =
    b64d-b64e (255 ∷ 254 ∷ 0 ∷ 7 ∷ [])
      (omega arith, (omega arith, (omega arith, (omega arith, tt))))
