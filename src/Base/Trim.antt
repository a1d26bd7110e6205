-- ===== src/Base/Trim.antt =====
-- Texts without white space are their own trimming.
use Prim.Native.Nat.{ℕ, zero, suc, ◌<◌}
use mathlib.Core.Path.{◌≡◌, refl}
use mathlib.Core.List.{[], ◌∷◌, ◌++◌, reverse, reverse-reverse, reverse-cons}
use native.Mathlib.Omega.{arith}
use vps_manager.Base.Lists.{length, All}
use vps_manager.Base.Bytes.{Text, trim_space, trim_by, leading_space, trailing_space}

-- Printable ASCII characters, without the blank.
abbrev pub IsPlain : Text → Type 0
IsPlain = All (λ c. (32 < c) × (c < 128))

IsPlain-append : (s t : Text) → IsPlain s → IsPlain t → IsPlain (s ++ t)
IsPlain-append [] t hs ht = ht
IsPlain-append (c ∷ s) t hs ht = (hs.0, IsPlain-append s t hs.1 ht)

IsPlain-reverse : (s : Text) → IsPlain s → IsPlain (reverse s)
IsPlain-reverse [] h = tt
IsPlain-reverse (c ∷ s) h =
    rw (reverse-cons c s) (IsPlain-append (reverse s) (c ∷ []) (IsPlain-reverse s h.1) (h.0, tt))

leading_space-plain : (s : Text) → IsPlain s → leading_space s ≡ 0
unfolding leading_space
leading_space-plain [] h = refl
leading_space-plain (a ∷ []) h = ground arith
leading_space-plain (a ∷ b ∷ []) h = ground arith
leading_space-plain (a ∷ b ∷ c ∷ s) h = ground arith

trailing_space-plain : (s : Text) → IsPlain s → trailing_space s ≡ 0
unfolding trailing_space
trailing_space-plain [] h = refl
trailing_space-plain (a ∷ []) h = ground arith
trailing_space-plain (b ∷ a ∷ []) h = ground arith
trailing_space-plain (c ∷ b ∷ a ∷ s) h = ground arith

trim_by-zero : (width : Text → ℕ) (fuel : ℕ) (s : Text) → width s ≡ 0 → trim_by width fuel s ≡ s
unfolding trim_by
trim_by-zero width zero s h = refl
trim_by-zero width (suc fuel) s h = ground arith

pub trim_space-plain : (s : Text) → IsPlain s → trim_space s ≡ s
unfolding trim_space
trim_space-plain s h =
    rw
      (
        trim_by-zero leading_space (length s) s (leading_space-plain s h),
        trim_by-zero trailing_space (length s) (reverse s)
            (trailing_space-plain (reverse s) (IsPlain-reverse s h)),
      )
      (reverse-reverse s)
