-- ===== src/Verifier/Base64/RoundTrip.antt =====
-- What `_b64e` writes, `_b64d` reads.
use bank_of_baroda_iit_gn.Common.{
  ℕ, suc, ◌+◌, ◌-◌, ◌*◌, ◌/◌, ◌%◌, ◌<◌, ◌≡◌, ◌∙◌, sym, ap, refl, true, false, ◌||◌, Option, none,
  some, List, [], ◌∷◌, ◌++◌, length, ltb, ◌==◌, arith, All, if◌then◌else◌,
}
use mathlib.Core.List.{append-nil, append_assoc}
use bank_of_baroda_iit_gn.Verifier.Base64.{
  Decoder, all_ascii, at_group, b64d, b64e, digit, pad, pads, read_all, read_char, read_pad,
  read_sextet, rstrip_pad, sextet, urlsafe_b64decode, urlsafe_b64encode,
}

abbrev pub IsByte : ℕ → Type 0
IsByte b = b < 256

sextet-digit : (v : ℕ) → v < 64 → sextet (digit v) ≡ some v
unfolding sextet digit
sextet-digit v h = ground (arith, h)

digit_not_pad : (v : ℕ) → v < 64 → (digit v == pad) ≡ false
unfolding digit
digit_not_pad v h = ground (arith, h)

digit_ascii : (v : ℕ) → v < 64 → ltb (digit v) 128 ≡ true
unfolding digit
digit_ascii v h = ground (arith, h)

read_char-digit :
    (d : Decoder) (v : ℕ) → v < 64 → d.stopped ≡ false → read_char d (digit v) ≡ read_sextet d v
unfolding read_char
read_char-digit d v h going = rw (going, digit_not_pad v h, sextet-digit v h) refl

read_all-digit :
    (d : Decoder) (v : ℕ) (cs : List ℕ)
    → v < 64
    → d.stopped ≡ false
    → read_all d (digit v ∷ cs) ≡ read_all (read_sextet d v) cs
unfolding read_all
read_all-digit d v cs h going = ap (λ e. read_all e cs) (read_char-digit d v h going)

-- Inside a group: one, two or three characters read.
abbrev inside : ℕ → ℕ → List ℕ → Decoder
inside quad_pos left out = record {
  quad_pos = quad_pos;
  left = left;
  pads = 0;
  out = out;
  stopped = false;
}

read_first :
    (a low : ℕ) (out cs : List ℕ)
    → a < 256
    → low < 16
    → read_all (at_group out) (digit (a / 4) ∷ digit (a % 4 * 16 + low) ∷ cs)
      ≡ read_all (inside 2 low (out ++ a ∷ [])) cs
unfolding read_sextet
read_first a low out cs h k =
    let rest : (a % 4 * 16 + low) % 16 ≡ low = omega (arith, k) in
    let byte : a / 4 * 4 + (a % 4 * 16 + low) / 16 ≡ a = omega (arith, k) in
    read_all-digit (at_group out) (a / 4) (digit (a % 4 * 16 + low) ∷ cs) (omega (arith, h)) refl
    ∙ read_all-digit (inside 1 (a / 4) out) (a % 4 * 16 + low) cs (omega (arith, k)) refl
    ∙ ap (λ l. read_all (inside 2 l (out ++ (a / 4 * 4 + (a % 4 * 16 + low) / 16) ∷ [])) cs) rest
    ∙ ap (λ x. read_all (inside 2 low (out ++ x ∷ [])) cs) byte

read_second :
    (b low : ℕ) (out cs : List ℕ)
    → b < 256
    → low < 4
    → read_all (inside 2 (b / 16) out) (digit (b % 16 * 4 + low) ∷ cs)
      ≡ read_all (inside 3 low (out ++ b ∷ [])) cs
unfolding read_sextet
read_second b low out cs h k =
    let rest : (b % 16 * 4 + low) % 4 ≡ low = omega (arith, k) in
    let byte : b / 16 * 16 + (b % 16 * 4 + low) / 4 ≡ b = omega (arith, k) in
    read_all-digit (inside 2 (b / 16) out) (b % 16 * 4 + low) cs (omega (arith, k)) refl
    ∙ ap (λ l. read_all (inside 3 l (out ++ (b / 16 * 16 + (b % 16 * 4 + low) / 4) ∷ [])) cs) rest
    ∙ ap (λ x. read_all (inside 3 low (out ++ x ∷ [])) cs) byte

read_third :
    (c : ℕ) (out cs : List ℕ)
    → c < 256
    → read_all (inside 3 (c / 64) out) (digit (c % 64) ∷ cs)
      ≡ read_all (at_group (out ++ c ∷ [])) cs
unfolding read_sextet
read_third c out cs h =
    let byte : c / 64 * 64 + c % 64 ≡ c = omega arith in
    read_all-digit (inside 3 (c / 64) out) (c % 64) cs (omega arith) refl
    ∙ ap (λ x. read_all (at_group (out ++ x ∷ [])) cs) byte

joined_group :
    (out raw : List ℕ) (a b c : ℕ) → ((out ++ a ∷ []) ++ b ∷ []) ++ c ∷ raw ≡ out ++ a ∷ b ∷ c ∷ raw
joined_group [] raw a b c = refl
joined_group (x ∷ out) raw a b c = ap (x ∷◌) (joined_group out raw a b c)

joined_pair : (out : List ℕ) (a b : ℕ) → (out ++ a ∷ []) ++ b ∷ [] ≡ out ++ a ∷ b ∷ []
joined_pair [] a b = refl
joined_pair (x ∷ out) a b = ap (x ∷◌) (joined_pair out a b)

-- What a decoder returns, characters outside ASCII aside.
abbrev result : Decoder → Option (List ℕ)
result d = if d.stopped || (d.quad_pos == 0) then some d.out else none

decoded :
    (raw out : List ℕ)
    → All IsByte raw
    → result (read_all (at_group out) (urlsafe_b64encode raw)) ≡ some (out ++ raw)
unfolding urlsafe_b64encode read_all read_char read_pad
decoded [] out bytes = ap some (sym (append-nil out))
decoded (a ∷ []) out (h, _) =
    let even : a % 4 * 16 ≡ a % 4 * 16 + 0 = omega arith in
    ap (λ x. result (read_all (at_group out) (digit (a / 4) ∷ digit x ∷ pad ∷ pad ∷ []))) even
    ∙ ap result (read_first a 0 out (pad ∷ pad ∷ []) h (omega arith))
decoded (a ∷ b ∷ []) out (h, (k, _)) =
    let even : b % 16 * 4 ≡ b % 16 * 4 + 0 = omega arith in
    ap result (read_first a (b / 16) out (digit (b % 16 * 4) ∷ pad ∷ []) h (omega (arith, k)))
    ∙ ap (λ x. result (read_all (inside 2 (b / 16) (out ++ a ∷ [])) (digit x ∷ pad ∷ []))) even
    ∙ ap result (read_second b 0 (out ++ a ∷ []) (pad ∷ []) k (omega arith))
    ∙ ap some (joined_pair out a b)
decoded (a ∷ b ∷ c ∷ raw) out (h, (k, (l, bytes))) =
    ap result (
      read_first a (b / 16) out
        (digit (b % 16 * 4 + c / 64) ∷ digit (c % 64) ∷ urlsafe_b64encode raw) h (omega (arith, k))
      ∙ read_second b (c / 64) (out ++ a ∷ []) (digit (c % 64) ∷ urlsafe_b64encode raw) k
          (omega (arith, l))
      ∙ read_third c ((out ++ a ∷ []) ++ b ∷ []) (urlsafe_b64encode raw) l)
    ∙ decoded raw (((out ++ a ∷ []) ++ b ∷ []) ++ c ∷ []) bytes
    ∙ ap some (append_assoc ((out ++ a ∷ []) ++ b ∷ []) (c ∷ []) raw ∙ joined_group out raw a b c)

-- The padding that is put back.
abbrev padding : List ℕ → List ℕ
padding seg = pads ((4 - length seg % 4) % 4)

group_padding : (n : ℕ) → (4 - suc (suc (suc (suc n))) % 4) % 4 ≡ (4 - n % 4) % 4
group_padding n = omega arith

padded : (raw : List ℕ) → All IsByte raw → b64e raw ++ padding (b64e raw) ≡ urlsafe_b64encode raw
unfolding b64e rstrip_pad urlsafe_b64encode pads
padded [] bytes = refl
padded (a ∷ []) (h, _) =
    rw (digit_not_pad (a / 4) (omega (arith, h)), digit_not_pad (a % 4 * 16) (omega arith)) refl
padded (a ∷ b ∷ []) (h, (k, _)) =
    rw
      (
        digit_not_pad (a / 4) (omega (arith, h)),
        digit_not_pad (a % 4 * 16 + b / 16) (omega (arith, k)),
        digit_not_pad (b % 16 * 4) (omega arith),
      )
      refl
padded (a ∷ b ∷ c ∷ raw) (h, (k, (l, bytes))) =
    let tail : (x : List ℕ) → List ℕ = λ x.
      digit (a / 4)
      ∷ digit (a % 4 * 16 + b / 16)
      ∷ digit (b % 16 * 4 + c / 64)
      ∷ digit (c % 64)
      ∷ x in
    let kept = ap (λ n. b64e raw ++ pads n) (group_padding (length (b64e raw))) in
    rw
      (
        digit_not_pad (a / 4) (omega (arith, h)),
        digit_not_pad (a % 4 * 16 + b / 16) (omega (arith, k)),
        digit_not_pad (b % 16 * 4 + c / 64) (omega (arith, l)),
        digit_not_pad (c % 64) (omega arith),
      )
      (ap tail (kept ∙ padded raw bytes))

encoded_ascii : (raw : List ℕ) → All IsByte raw → all_ascii (urlsafe_b64encode raw) ≡ true
unfolding all_ascii urlsafe_b64encode
encoded_ascii [] bytes = refl
encoded_ascii (a ∷ []) (h, _) =
    rw (digit_ascii (a / 4) (omega (arith, h)), digit_ascii (a % 4 * 16) (omega arith)) refl
encoded_ascii (a ∷ b ∷ []) (h, (k, _)) =
    rw
      (
        digit_ascii (a / 4) (omega (arith, h)),
        digit_ascii (a % 4 * 16 + b / 16) (omega (arith, k)),
        digit_ascii (b % 16 * 4) (omega arith),
      )
      refl
encoded_ascii (a ∷ b ∷ c ∷ raw) (h, (k, (l, bytes))) =
    rw
      (
        digit_ascii (a / 4) (omega (arith, h)),
        digit_ascii (a % 4 * 16 + b / 16) (omega (arith, k)),
        digit_ascii (b % 16 * 4 + c / 64) (omega (arith, l)),
        digit_ascii (c % 64) (omega arith),
      )
      (encoded_ascii raw bytes)

-- What _b64e makes of any bytes, _b64d reads back as the same bytes.
pub b64d-b64e : (raw : List ℕ) → All IsByte raw → b64d (b64e raw) ≡ some raw
unfolding b64d urlsafe_b64decode
b64d-b64e raw bytes = rw (padded raw bytes, encoded_ascii raw bytes) (decoded raw [] bytes)
