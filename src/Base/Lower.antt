-- ===== src/Base/Lower.antt =====
-- Lower case, texts within texts, and control characters.
use Prim.Native.Nat.{◌+◌}
use mathlib.Core.Bool.{Bool, false, ◌&&◌, ◌||◌}
use mathlib.Core.List.{[], ◌∷◌}
use vps_manager.Base.Tests.{ltb, leb, ◌==◌, if◌then◌else◌}
use vps_manager.Base.Lists.{All}
use mathlib.Core.Path.{◌≡◌}
use mathlib.Core.Logic.{◌≢◌}
use native.Mathlib.Omega.{arith}
use vps_manager.Base.Bytes.{Text, has_prefix}

-- strings.ToLower as far as ASCII results go: of the characters beyond ASCII, only U+0130 and U+212A
-- have a lower case within ASCII; the others stay beyond it.
unfoldable pub lower : Text → Text
lower [] = []
lower (a ∷ []) = (if leb b'A' a && leb a b'Z' then a + 32 else a) ∷ []
lower (a ∷ b ∷ []) =
    let rest = lower (b ∷ []) in
    if a == 0xc4 && b == 0xb0
    then b'i' ∷ []
    else (if leb b'A' a && leb a b'Z' then a + 32 else a) ∷ rest
lower (a ∷ b ∷ c ∷ s) =
    let rest = lower (b ∷ c ∷ s) in
    let after_2 = lower (c ∷ s) in
    let after_3 = lower s in
    if a == 0xc4 && b == 0xb0
    then b'i' ∷ after_2
    else if a == 0xe2 && b == 0x84 && c == 0xaa
    then b'k' ∷ after_3
    else (if leb b'A' a && leb a b'Z' then a + 32 else a) ∷ rest

-- strings.Contains
unfoldable pub is_within : Text → Text → Bool
unfolding has_prefix
is_within part [] = has_prefix [] part
is_within part (c ∷ s) = has_prefix (c ∷ s) part || is_within part s

-- `unicode.IsControl` of some character: below U+0020, or U+007F to U+009F, in UTF-8.
unfoldable pub has_control : Text → Bool
has_control [] = false
has_control (c ∷ []) = ltb c 32 || c == 127
has_control (c ∷ d ∷ s) =
    ltb c 32 || c == 127 || c == 0xc2 && leb 0x80 d && leb d 0x9f || has_control (d ∷ s)

-- A text without control characters is of one line.
pub has_control-Lacks : (s : Text) → has_control s ≡ false → All (λ c. c ≢ 10) s
unfolding has_control
has_control-Lacks [] h = tt
has_control-Lacks (c ∷ []) h = (λ e. ground arith, tt)
has_control-Lacks (c ∷ d ∷ s) h = (λ e. ground arith, has_control-Lacks (d ∷ s) (ground arith))
