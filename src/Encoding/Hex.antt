-- ===== src/Encoding/Hex.antt =====
-- `hex.EncodeToString`.
use vps_manager.Base.{
  ℕ, ◌+◌, ◌/◌, ◌%◌, ◌<◌, ◌≡◌, refl, [], ◌∷◌, arith, Text, ltb, if◌then◌else◌, IsBytes,
}
use vps_manager.Encoding.Join.{Lacks}

abbrev hex_digit : ℕ → ℕ
hex_digit n = if ltb n 10 then n + b'0' else n + 87

unfoldable pub hex : Text → Text
hex [] = []
hex (b ∷ s) = hex_digit (b / 16) ∷ hex_digit (b % 16) ∷ hex s

hex_digit-injective : (m n : ℕ) → m < 16 → n < 16 → hex_digit m ≡ hex_digit n → m ≡ n
hex_digit-injective m n hm hn e = ground arith

pub hex-injective : (s t : Text) → IsBytes s → IsBytes t → hex s ≡ hex t → s ≡ t
unfolding hex
hex-injective [] [] hs ht e = refl
hex-injective [] (b ∷ t) hs ht e = cc
hex-injective (a ∷ s) [] hs ht e = cc
hex-injective (a ∷ s) (b ∷ t) hs ht e =
    let high : a / 16 ≡ b / 16 =
      hex_digit-injective (a / 16) (b / 16) (omega (arith, hs.0)) (omega (arith, ht.0)) (cc) in
    let low : a % 16 ≡ b % 16 =
      hex_digit-injective (a % 16) (b % 16) (omega arith) (omega arith) (cc) in
    let ih : s ≡ t = hex-injective s t hs.1 ht.1 (cc) in
    let same : a ≡ b = omega (arith, high, low) in ground (arith, same, ih)

pub hex-Lacks : (c : ℕ) (s : Text) → c < b'0' → Lacks c (hex s)
unfolding hex
hex-Lacks c [] low = tt
hex-Lacks c (b ∷ s) low = (λ e. ground arith, (λ e. ground arith, hex-Lacks c s low))
