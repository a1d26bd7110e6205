-- ===== src/Encoding/Decimal.antt =====
-- `strconv.Itoa` and `strconv.FormatUint` in base 10, and the number that digits stand for.
use vps_manager.Base.{
  ℕ, zero, suc, ◌+◌, ◌-◌, ◌*◌, ◌/◌, ◌%◌, ◌<◌, ◌≤◌, ◌≡◌, ◌≢◌, refl, sym, ap, ◌∙◌, [], ◌∷◌, ◌++◌,
  arith, Text, All, ltb, if◌then◌else◌, Bool-cases, inl, inr, ltb→lt, ℤ, pos, negsuc,
}
use mathlib.Core.List.{foldl, foldl-append}

-- Fuel `n + 1` is enough: each round divides the number by 10.
digits : ℕ → ℕ → Text
digits zero n = []
digits (suc fuel) n =
    let rest = digits fuel (n / 10) in
    if ltb n 10 then (n + 48) ∷ [] else rest ++ (n % 10 + 48) ∷ []

unfoldable pub itoa : ℕ → Text
unfolding digits
itoa n = digits (suc n) n

abbrev pub add_digit : ℕ → ℕ → ℕ
add_digit n c = n * 10 + (c - 48)

abbrev pub value_of : Text → ℕ
value_of = foldl add_digit 0

value_of-digits : (fuel n : ℕ) → n < fuel → value_of (digits fuel n) ≡ n
unfolding digits
value_of-digits zero n h = elim h [ ]
value_of-digits (suc fuel) n h = elim (Bool-cases (ltb n 10)) [
  | inl small ↦ rw small (omega arith)
  | inr large ↦
      rw (large, foldl-append) (rw (value_of-digits fuel (n / 10) (ground arith)) (omega arith))
]

pub value_of-itoa : (n : ℕ) → value_of (itoa n) ≡ n
unfolding itoa
value_of-itoa n = value_of-digits (suc n) n (omega arith)

-- Different numbers have different digits.
pub itoa-injective : (m n : ℕ) → itoa m ≡ itoa n → m ≡ n
itoa-injective m n e = sym (value_of-itoa m) ∙ ap value_of e ∙ value_of-itoa n

abbrev pub IsDigits : Text → Type 0
IsDigits = All (λ c. (48 ≤ c) × (c < 58))

IsDigits-append : (s t : Text) → IsDigits s → IsDigits t → IsDigits (s ++ t)
IsDigits-append [] t hs ht = ht
IsDigits-append (c ∷ s) t hs ht = (hs.0, IsDigits-append s t hs.1 ht)

digits-IsDigits : (fuel n : ℕ) → IsDigits (digits fuel n)
unfolding digits
digits-IsDigits zero n = tt
digits-IsDigits (suc fuel) n = elim (Bool-cases (ltb n 10)) [
  | inl small ↦ rw small ((omega arith, omega (arith, ltb→lt n 10 small)), tt)
  | inr large ↦ rw large (
      IsDigits-append (digits fuel (n / 10)) ((n % 10 + 48) ∷ []) (digits-IsDigits fuel (n / 10))
        ((omega arith, omega arith), tt))
]

pub itoa-IsDigits : (n : ℕ) → IsDigits (itoa n)
unfolding itoa
itoa-IsDigits n = digits-IsDigits (suc n) n

append-ne-nil : (s : Text) (c : ℕ) → s ++ c ∷ [] ≢ []
append-ne-nil [] c e = cc
append-ne-nil (a ∷ s) c e = cc

pub itoa-ne-nil : (n : ℕ) → itoa n ≢ []
unfolding itoa digits
itoa-ne-nil n e = elim (Bool-cases (ltb n 10)) [
  | inl small ↦ ground (arith, e, small)
  | inr large ↦ append-ne-nil (digits n (n / 10)) (n % 10 + 48) (ground (arith, e, large))
]

-- The same for signed numbers.
unfoldable pub itoa_ℤ : ℤ → Text
itoa_ℤ (pos n) = itoa n
itoa_ℤ (negsuc n) = b'-' ∷ itoa (n + 1)

digits_ne_minus : (t s : Text) → IsDigits t → t ≢ b'-' ∷ s
digits_ne_minus [] s h e = cc
digits_ne_minus (c ∷ t) s h e =
    let same : c ≡ b'-' = ground (arith, e) in absurd (omega (arith, same, h.0.0))

itoa_ne_minus : (n : ℕ) (s : Text) → IsDigits (itoa n) → itoa n ≢ b'-' ∷ s
itoa_ne_minus n s h e = digits_ne_minus (itoa n) s h e

pub itoa_ℤ-injective : (a b : ℤ) → itoa_ℤ a ≡ itoa_ℤ b → a ≡ b
unfolding itoa_ℤ
itoa_ℤ-injective (pos m) (pos n) e = ap pos (itoa-injective m n e)
itoa_ℤ-injective (pos m) (negsuc n) e = absurd (itoa_ne_minus m (itoa (n + 1)) (itoa-IsDigits m) e)
itoa_ℤ-injective (negsuc m) (pos n) e =
    absurd (itoa_ne_minus n (itoa (m + 1)) (itoa-IsDigits n) (sym e))
itoa_ℤ-injective (negsuc m) (negsuc n) e =
    let same : m + 1 ≡ n + 1 = itoa-injective (m + 1) (n + 1) (cc) in ground (arith, same)

-- No byte below the digits occurs.
digits-lack : (c : ℕ) (s : Text) → c < 48 → IsDigits s → All (λ b. b ≢ c) s
digits-lack c [] low h = tt
digits-lack c (b ∷ s) low h = (λ e. omega (arith, h.0.0), digits-lack c s low h.1)

pub itoa-lack : (c n : ℕ) → c < 48 → All (λ b. b ≢ c) (itoa n)
itoa-lack c n low = digits-lack c (itoa n) low (itoa-IsDigits n)

pub itoa_ℤ-lack : (c : ℕ) (a : ℤ) → c < 45 → All (λ b. b ≢ c) (itoa_ℤ a)
unfolding itoa_ℤ
itoa_ℤ-lack c (pos n) low = itoa-lack c n (omega arith)
itoa_ℤ-lack c (negsuc n) low = (λ e. omega arith, itoa-lack c (n + 1) (omega arith))

itoa_test : itoa 2026 ≡ 50 ∷ 48 ∷ 50 ∷ 54 ∷ []
unfolding itoa
itoa_test = refl
