-- ===== src/Encoding/Base64.antt =====
-- `base64.RawURLEncoding`: the URL alphabet without padding. Like Go's, the decoder passes over
-- carriage returns and line feeds; the strict one also wants the unused bits to be 0.
use vps_manager.Base.{
  ℕ, ◌+◌, ◌-◌, ◌*◌, ◌/◌, ◌%◌, ◌<◌, ◌≤◌, ◌≡◌, ◌≢◌, refl, Bool, true, not, ◌&&◌, ◌||◌, Option, none,
  IsPlain, some, [], ◌∷◌, arith, Text, IsBytes, keep_if, length, ltb, leb, ◌==◌, if◌then◌else◌,
}

-- The character for a value below 64, and back.
abbrev enc6 : ℕ → ℕ
enc6 n =
    if ltb n 26
    then n + 65
    else if ltb n 52
    then n + 71
    else if ltb n 62
    then n - 4
    else if n == 62
    then 45
    else 95

abbrev dec6 : ℕ → Option ℕ
dec6 c =
    if leb 65 c && leb c 90
    then some (c - 65)
    else if leb 97 c && leb c 122
    then some (c - 71)
    else if leb 48 c && leb c 57
    then some (c + 4)
    else if c == 45
    then some 62
    else if c == 95
    then some 63
    else none

unfoldable pub encode : Text → Text
encode [] = []
encode (a ∷ []) = enc6 (a / 4) ∷ enc6 (a % 4 * 16) ∷ []
encode (a ∷ b ∷ []) = enc6 (a / 4) ∷ enc6 (a % 4 * 16 + b / 16) ∷ enc6 (b % 16 * 4) ∷ []
encode (a ∷ b ∷ c ∷ s) =
    enc6 (a / 4)
    ∷ enc6 (a % 4 * 16 + b / 16)
    ∷ enc6 (b % 16 * 4 + c / 64)
    ∷ enc6 (c % 64)
    ∷ encode s

-- The bytes of two, three and four characters' values.
abbrev two : Bool → Option ℕ → Option ℕ → Option Text
two strict (some p) (some q) =
    if strict && not (q % 16 == 0) then none else some ((p * 4 + q / 16) ∷ [])
two strict _ _ = none

abbrev three : Bool → Option ℕ → Option ℕ → Option ℕ → Option Text
three strict (some p) (some q) (some r) =
    if strict && not (r % 4 == 0)
    then none
    else some ((p * 4 + q / 16) ∷ (q % 16 * 16 + r / 4) ∷ [])
three strict _ _ _ = none

abbrev four : Option ℕ → Option ℕ → Option ℕ → Option ℕ → Option Text → Option Text
four (some p) (some q) (some r) (some t) (some rest) =
    some ((p * 4 + q / 16) ∷ (q % 16 * 16 + r / 4) ∷ (r % 4 * 64 + t) ∷ rest)
four _ _ _ _ _ = none

decode_groups : Bool → Text → Option Text
decode_groups strict [] = some []
decode_groups strict (a ∷ []) = none
decode_groups strict (a ∷ b ∷ []) = two strict (dec6 a) (dec6 b)
decode_groups strict (a ∷ b ∷ c ∷ []) = three strict (dec6 a) (dec6 b) (dec6 c)
decode_groups strict (a ∷ b ∷ c ∷ d ∷ s) =
    four (dec6 a) (dec6 b) (dec6 c) (dec6 d) (decode_groups strict s)

abbrev not_newline : ℕ → Bool
not_newline c = not (c == 10 || c == 13)

-- base64.RawURLEncoding.DecodeString, with `Strict()` if the first argument is true
unfoldable pub decode : Bool → Text → Option Text
unfolding decode_groups
decode strict s = decode_groups strict (keep_if not_newline s)

dec6-enc6 : (n : ℕ) → n < 64 → dec6 (enc6 n) ≡ some n
dec6-enc6 n h = ground arith

not_newline-enc6 : (n : ℕ) → not_newline (enc6 n) ≡ true
not_newline-enc6 n = ground arith

keep_if-encode : (s : Text) → keep_if not_newline (encode s) ≡ encode s
unfolding encode
keep_if-encode [] = refl
keep_if-encode (a ∷ []) = simp not_newline-enc6
keep_if-encode (a ∷ b ∷ []) = simp not_newline-enc6
keep_if-encode (a ∷ b ∷ c ∷ s) = simp (not_newline-enc6, keep_if-encode s)

bytes_3 :
    (a b c : ℕ) (s : Text)
    → a < 256
    → b < 256
    → c < 256
    → four
        (some (a / 4))
        (some (a % 4 * 16 + b / 16))
        (some (b % 16 * 4 + c / 64))
        (some (c % 64))
        (some s)
      ≡ some (a ∷ b ∷ c ∷ s)
bytes_3 a b c s ha hb hc = ground arith

decode_groups-encode :
    (strict : Bool) (s : Text) → IsBytes s → decode_groups strict (encode s) ≡ some s
unfolding encode decode_groups
decode_groups-encode strict [] h = refl
decode_groups-encode strict (a ∷ []) h =
    rw (dec6-enc6 (a / 4) (omega arith), dec6-enc6 (a % 4 * 16) (omega arith)) (ground arith)
decode_groups-encode strict (a ∷ b ∷ []) h =
    rw
      (
        dec6-enc6 (a / 4) (omega arith),
        dec6-enc6 (a % 4 * 16 + b / 16) (omega arith),
        dec6-enc6 (b % 16 * 4) (omega arith),
      )
      (ground arith)
decode_groups-encode strict (a ∷ b ∷ c ∷ s) h =
    rw
      (
        dec6-enc6 (a / 4) (omega arith),
        dec6-enc6 (a % 4 * 16 + b / 16) (omega arith),
        dec6-enc6 (b % 16 * 4 + c / 64) (omega arith),
        dec6-enc6 (c % 64) (omega arith),
        decode_groups-encode strict s h.1.1.1,
      )
      (bytes_3 a b c s h.0 h.1.0 h.1.1.0)

-- What was encoded decodes to itself, strictly or not.
pub decode-encode : (strict : Bool) (s : Text) → IsBytes s → decode strict (encode s) ≡ some s
unfolding decode
decode-encode strict s h = rw (keep_if-encode s) (decode_groups-encode strict s h)

-- Three bytes become four characters, and a rest of one or two bytes one more than itself.
pub length-encode_bounds :
    (s : Text) → (4 * length s ≤ 3 * length (encode s)) × (3 * length (encode s) ≤ 4 * length s + 2)
unfolding encode
length-encode_bounds [] = omega arith
length-encode_bounds (a ∷ []) = omega arith
length-encode_bounds (a ∷ b ∷ []) = omega arith
length-encode_bounds (a ∷ b ∷ c ∷ s) = omega (arith, length-encode_bounds s)

encode_test : encode (0xfb ∷ 0xff ∷ 0 ∷ 7 ∷ []) ≡ 45 ∷ 95 ∷ 56 ∷ 65 ∷ 66 ∷ 119 ∷ []
unfolding encode
encode_test = refl

-- The characters of the alphabet are printable.
pub encode-IsPlain : (s : Text) → IsPlain (encode s)
unfolding encode
encode-IsPlain [] = tt
encode-IsPlain (a ∷ []) = (ground arith, (ground arith, tt))
encode-IsPlain (a ∷ b ∷ []) = (ground arith, (ground arith, (ground arith, tt)))
encode-IsPlain (a ∷ b ∷ c ∷ s) =
    (ground arith, (ground arith, (ground arith, (ground arith, encode-IsPlain s))))

pub encode-ne-nil : (s : Text) → s ≢ [] → length (encode s) ≢ 0
unfolding encode
encode-ne-nil [] h = absurd (h refl)
encode-ne-nil (a ∷ []) h = omega arith
encode-ne-nil (a ∷ b ∷ []) h = omega arith
encode-ne-nil (a ∷ b ∷ c ∷ s) h = omega arith
