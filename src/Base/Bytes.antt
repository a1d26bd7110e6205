-- ===== src/Base/Bytes.antt =====
-- Go's strings and byte slices as lists of bytes: equality, order, prefixes, trimming.
use Prim.Native.Nat.{ℕ, zero, suc, ◌+◌, ◌<◌}
use Prim.Native.Char.{code}
use Prim.Native.String.{String}
use mathlib.Core.Path.{◌≡◌, refl}
use mathlib.Core.Logic.{◌≢◌, ◌↔◌}
use mathlib.Core.Bool.{Bool, true, false, ◌&&◌, ◌||◌}
use mathlib.Core.List.{List, [], ◌∷◌, ◌++◌, reverse}
use native.Mathlib.Omega.{arith}
use vps_manager.Base.Tests.{ltb, leb, ◌==◌, if◌then◌else◌}
use vps_manager.Base.Lists.{length, drop, any_of, All}

abbrev pub Text : Type 0
Text = List ℕ

-- A literal: its code points, which are its bytes where it is ASCII.
abbrev pub codes : String → Text
codes String.[] = []
codes (String.◌∷◌ c s) = code c ∷ codes s

unfoldable pub text_eq : Text → Text → Bool
text_eq [] [] = true
text_eq (a ∷ s) (b ∷ t) = a == b && text_eq s t
text_eq _ _ = false

pub text_eq_iff : (s t : Text) → (text_eq s t ≡ true) ↔ (s ≡ t)
unfolding text_eq
text_eq_iff [] [] = (λ h. refl, λ h. refl)
text_eq_iff [] (b ∷ t) = (λ h. cc, λ h. cc)
text_eq_iff (a ∷ s) [] = (λ h. cc, λ h. cc)
text_eq_iff (a ∷ s) (b ∷ t) =
    let ih = text_eq_iff s t in (λ h. ground (arith, ih), λ h. ground (arith, ih))

pub text_eq_refl : (s : Text) → text_eq s s ≡ true
text_eq_refl s = (text_eq_iff s s).1 refl

pub text_eq_ne : (s t : Text) → s ≢ t → text_eq s t ≡ false
text_eq_ne s t h = ground (arith, text_eq_iff s t)

pub text_eq_sym : (s t : Text) → text_eq s t ≡ text_eq t s
text_eq_sym s t = ground (arith, text_eq_iff s t, text_eq_iff t s)

-- s < t, byte by byte
unfoldable pub text_lt : Text → Text → Bool
text_lt s [] = false
text_lt [] (b ∷ t) = true
text_lt (a ∷ s) (b ∷ t) = let rest = text_lt s t in if a == b then rest else ltb a b

abbrev pub contains : List Text → Text → Bool
contains l t = any_of (λ s. text_eq s t) l

unfoldable pub has_prefix : Text → Text → Bool
has_prefix s [] = true
has_prefix [] (b ∷ p) = false
has_prefix (a ∷ s) (b ∷ p) = a == b && has_prefix s p

-- strings.ToLower on the ASCII letters.
abbrev pub to_lower : Text → Text
to_lower [] = []
to_lower (c ∷ s) = (if leb b'A' c && leb c b'Z' then c + 32 else c) ∷ to_lower s

-- The number of bytes of the white space character with which a text begins, and 0 if it begins
-- with another. Besides the ASCII characters: U+0085, U+00A0, U+1680, U+2000 to U+200A, U+2028,
-- U+2029, U+202F, U+205F, U+3000, in UTF-8.
abbrev pub is_ascii_space : ℕ → Bool
is_ascii_space c = leb 9 c && leb c 13 || c == 32

abbrev pub is_space_2 : ℕ → ℕ → Bool
is_space_2 a b = a == 0xc2 && (b == 0x85 || b == 0xa0)

abbrev pub is_space_3 : ℕ → ℕ → ℕ → Bool
is_space_3 a b c =
    a == 0xe1 && b == 0x9a && c == 0x80
    || a == 0xe2 && b == 0x80 && (leb 0x80 c && leb c 0x8a || c == 0xa8 || c == 0xa9 || c == 0xaf)
    || a == 0xe2 && b == 0x81 && c == 0x9f
    || a == 0xe3 && b == 0x80 && c == 0x80

unfoldable pub leading_space : Text → ℕ
leading_space [] = 0
leading_space (a ∷ []) = if is_ascii_space a then 1 else 0
leading_space (a ∷ b ∷ []) = if is_ascii_space a then 1 else if is_space_2 a b then 2 else 0
leading_space (a ∷ b ∷ c ∷ s) =
    if is_ascii_space a then 1 else if is_space_2 a b then 2 else if is_space_3 a b c then 3 else 0

-- The same for the character with which it ends, read from the back.
unfoldable pub trailing_space : Text → ℕ
trailing_space [] = 0
trailing_space (a ∷ []) = if is_ascii_space a then 1 else 0
trailing_space (b ∷ a ∷ []) = if is_ascii_space b then 1 else if is_space_2 a b then 2 else 0
trailing_space (c ∷ b ∷ a ∷ s) =
    if is_ascii_space c then 1 else if is_space_2 b c then 2 else if is_space_3 a b c then 3 else 0

-- Each round drops a byte or more, so the length is fuel enough.
unfoldable pub trim_by : (Text → ℕ) → ℕ → Text → Text
trim_by width zero s = s
trim_by width (suc fuel) s =
    let rest = trim_by width fuel (drop (width s) s) in if width s == 0 then s else rest

-- strings.TrimSpace
unfoldable pub trim_space : Text → Text
unfolding leading_space trailing_space trim_by
trim_space s =
    let left = trim_by leading_space (length s) s in
    reverse (trim_by trailing_space (length left) (reverse left))

-- A slice of bytes, as every Go string is.
abbrev pub IsBytes : Text → Type 0
IsBytes = All (λ b. b < 256)

trim_space_test : trim_space (codes "  a b" ++ 0xc2 ∷ 0xa0 ∷ 10 ∷ []) ≡ codes "a b"
unfolding trim_space
trim_space_test = refl
