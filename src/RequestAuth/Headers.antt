-- ===== src/RequestAuth/Headers.antt =====
-- The parts of Go's standard library that read a request: headers, decimal numbers, Unix times.
use vps_manager.Base.{
  ℕ, ◌<◌, sym, ap, ◌∙◌, arith, true, ◌+◌, ◌-◌, ◌*◌, ◌^◌, Bool, not, ◌&&◌, ◌||◌, Option, none, some,
  List, [], ◌∷◌, ◌≡◌, refl, ℤ, pos, negsuc, Time, second, Text, Table, codes, lookup, length, ltb,
  leb, ◌==◌, text_eq, if◌then◌else◌, all_of, trim_space,
}
use mathlib.Core.Path.{subst}
use vps_manager.Encoding.Decimal.{
  itoa, itoa-ne-nil, value_of, value_of-itoa, itoa-IsDigits, IsDigits,
}

-- What the verifier reads of an HTTP request; the headers' names are in canonical form.
pub record Request : Type 0 where
  pub method : Text
  pub uri : Text
  pub headers : Table (List Text)
  pub body : Text

abbrev pub header_protocol : Text
header_protocol = codes "X-Vpsmgr-Protocol"

abbrev pub header_key_id : Text
header_key_id = codes "X-Vpsmgr-Key-Id"

abbrev pub header_timestamp : Text
header_timestamp = codes "X-Vpsmgr-Timestamp"

abbrev pub header_nonce : Text
header_nonce = codes "X-Vpsmgr-Nonce"

abbrev pub header_signature : Text
header_signature = codes "X-Vpsmgr-Signature"

-- The one value of a header, if it has one, not blank and without white space at its ends.
only_value : Option (List Text) → Option Text
only_value (some (value ∷ [])) =
    if length (trim_space value) == 0 || not (text_eq value (trim_space value))
    then none
    else some value
only_value _ = none

unfoldable pub single_header : Request → Text → Option Text
unfolding only_value
single_header r name = only_value (lookup name r.headers)

abbrev is_digit : ℕ → Bool
is_digit c = leb b'0' c && leb c b'9'

-- The number that one digit or more stand for.
unsigned : Text → Option ℕ
unsigned [] = none
unsigned (c ∷ s) = if all_of is_digit (c ∷ s) then some (value_of (c ∷ s)) else none

negative : Option ℕ → Option ℤ
negative none = none
negative (some n) =
    if ltb (2 ^ 63) n then none else if n == 0 then some (pos 0) else some (negsuc (n - 1))

positive : Option ℕ → Option ℤ
positive none = none
positive (some n) = if leb (2 ^ 63) n then none else some (pos n)

-- strconv.ParseInt(s, 10, 64)
unfoldable pub parse_int : Text → Option ℤ
unfolding unsigned negative positive
parse_int [] = none
parse_int (c ∷ s) =
    if c == b'-'
    then negative (unsigned s)
    else if c == b'+'
    then positive (unsigned s)
    else positive (unsigned (c ∷ s))

-- Seconds from the zero time to 1970.
abbrev unix_epoch : ℕ
unix_epoch = 62135596800

-- time.Unix(seconds, 0); what lies before the zero time is put there.
unfoldable pub unix_time : ℤ → Time
unix_time (pos n) = (unix_epoch + n) * second
unix_time (negsuc n) = (unix_epoch - (n + 1)) * second

-- strings.ToUpper on the ASCII letters, of which HTTP methods consist.
unfoldable pub to_upper : Text → Text
to_upper [] = []
to_upper (c ∷ s) = (if leb b'a' c && leb c b'z' then c - 32 else c) ∷ to_upper s

parse_int_test : parse_int (codes "-12") ≡ some (negsuc 11)
unfolding parse_int
parse_int_test = refl

digits_pass : (s : Text) → IsDigits s → all_of (λ c. leb b'0' c && leb c b'9') s ≡ true
digits_pass [] h = refl
digits_pass (c ∷ s) h = ground (arith, h.0, digits_pass s h.1)

-- A number that 63 bits hold is read back.
pub parse_int-itoa : (s : Text) (n : ℕ) → s ≡ itoa n → n < 2 ^ 63 → parse_int s ≡ some (pos n)
unfolding parse_int unsigned positive
parse_int-itoa [] n e h = absurd (itoa-ne-nil n (sym e))
parse_int-itoa (c ∷ s) n e h =
    let digits : IsDigits (c ∷ s) = subst IsDigits (sym e) (itoa-IsDigits n) in
    let pass = digits_pass (c ∷ s) digits in
    let value : value_of (c ∷ s) ≡ n = ap value_of e ∙ value_of-itoa n in
    ground (arith, digits.0, pass, value)
