-- ===== src/Verifier/Base64.antt =====
-- `_b64e` and `_b64d` of backend/app/verifier.py: the texts in a token. A text is the list of the codes
-- of its characters, and bytes are numbers below 256. `urlsafe_b64encode` and `urlsafe_b64decode` are
-- those of Python's standard library; the decoder skips characters that are not in the alphabet.
pub mod RoundTrip
use bank_of_baroda_iit_gn.Common.{
  ℕ, zero, suc, ◌+◌, ◌-◌, ◌*◌, ◌/◌, ◌%◌, Bool, true, false, ◌&&◌, ◌||◌, Option, none, some, List,
  [], ◌∷◌, ◌++◌, length, ltb, leb, ◌==◌, is_empty, if◌then◌else◌,
}

-- The code of "=".
abbrev pub pad : ℕ
pad = 61

-- The character of six bits: a letter, a digit, "-" or "_".
unfoldable pub digit : ℕ → ℕ
digit v =
    if ltb v 26
    then v + 65
    else if ltb v 52
    then v + 71
    else if ltb v 62
    then v - 4
    else if v == 62
    then 45
    else 95

-- The six bits of a character; "+" and "/" are read as "-" and "_".
unfoldable pub sextet : ℕ → Option ℕ
sextet c =
    if leb 65 c && leb c 90
    then some (c - 65)
    else if leb 97 c && leb c 122
    then some (c - 71)
    else if leb 48 c && leb c 57
    then some (c + 4)
    else if (c == 45) || (c == 43)
    then some 62
    else if (c == 95) || (c == 47)
    then some 63
    else none

-- `base64.urlsafe_b64encode`
unfoldable pub urlsafe_b64encode : List ℕ → List ℕ
urlsafe_b64encode [] = []
urlsafe_b64encode (a ∷ []) = digit (a / 4) ∷ digit (a % 4 * 16) ∷ pad ∷ pad ∷ []
urlsafe_b64encode (a ∷ b ∷ []) =
    digit (a / 4) ∷ digit (a % 4 * 16 + b / 16) ∷ digit (b % 16 * 4) ∷ pad ∷ []
urlsafe_b64encode (a ∷ b ∷ c ∷ raw) =
    digit (a / 4)
    ∷ digit (a % 4 * 16 + b / 16)
    ∷ digit (b % 16 * 4 + c / 64)
    ∷ digit (c % 64)
    ∷ urlsafe_b64encode raw

-- `.rstrip(b"=")`
unfoldable pub rstrip_pad : List ℕ → List ℕ
rstrip_pad [] = []
rstrip_pad (c ∷ cs) =
    let rest = rstrip_pad cs in if (c == pad) && is_empty rest then [] else c ∷ rest

-- `_b64e`
unfoldable pub b64e : List ℕ → List ℕ
unfolding rstrip_pad urlsafe_b64encode
b64e raw = rstrip_pad (urlsafe_b64encode raw)

-- The decoder between two characters: how many of a group of four it has, the bits that are left
-- of them, the padding characters in a row, the bytes so far, and whether it has stopped.
pub record Decoder : Type 0 where
  pub quad_pos : ℕ
  pub left : ℕ
  pub pads : ℕ
  pub out : List ℕ
  pub stopped : Bool

abbrev pub at_group : List ℕ → Decoder
at_group out = record { quad_pos = 0; left = 0; pads = 0; out = out; stopped = false }

unfoldable pub read_pad : Decoder → Decoder
read_pad d =
    if leb 2 d.quad_pos
    then record d { pads = d.pads + 1; stopped = leb 4 (d.quad_pos + (d.pads + 1)) }
    else d

abbrev pub push : ℕ → ℕ → ℕ → Decoder → Decoder
push quad_pos byte left d = record d {
  quad_pos = quad_pos;
  left = left;
  pads = 0;
  out = d.out ++ byte ∷ [];
}

unfoldable pub read_sextet : Decoder → ℕ → Decoder
read_sextet d v =
    if d.quad_pos == 0
    then record d { quad_pos = 1; left = v; pads = 0 }
    else if d.quad_pos == 1
    then push 2 (d.left * 4 + v / 16) (v % 16) d
    else if d.quad_pos == 2
    then push 3 (d.left * 16 + v / 4) (v % 4) d
    else push 0 (d.left * 64 + v) 0 d

abbrev pub read_digit : Decoder → Option ℕ → Decoder
read_digit d none = d
read_digit d (some v) = read_sextet d v

unfoldable pub read_char : Decoder → ℕ → Decoder
unfolding read_pad read_sextet sextet
read_char d c = if d.stopped then d else if c == pad then read_pad d else read_digit d (sextet c)

unfoldable pub read_all : Decoder → List ℕ → Decoder
unfolding read_char
read_all d [] = d
read_all d (c ∷ cs) = read_all (read_char d c) cs

unfoldable pub all_ascii : List ℕ → Bool
all_ascii [] = true
all_ascii (c ∷ cs) = ltb c 128 && all_ascii cs

-- `base64.urlsafe_b64decode`; `none` where it raises.
unfoldable pub urlsafe_b64decode : List ℕ → Option (List ℕ)
unfolding all_ascii read_all
urlsafe_b64decode text =
    let d = read_all (at_group []) text in
    if all_ascii text && (d.stopped || (d.quad_pos == 0)) then some d.out else none

-- `"=" * n`
unfoldable pub pads : ℕ → List ℕ
pads zero = []
pads (suc n) = pad ∷ pads n

-- `_b64d`: for natural numbers, -n % 4 is (4 - n % 4) % 4.
unfoldable pub b64d : List ℕ → Option (List ℕ)
unfolding urlsafe_b64decode pads
b64d seg = urlsafe_b64decode (seg ++ pads ((4 - length seg % 4) % 4))
