-- ===== src/Base/Order.antt =====
-- The order of texts.
use mathlib.Core.Path.{◌≡◌, refl}
use mathlib.Core.Bool.{true, false}
use mathlib.Core.List.{[], ◌∷◌}
use native.Mathlib.Omega.{arith}
use vps_manager.Base.Bytes.{Text, text_lt}

pub text_lt-asym : (s t : Text) → text_lt s t ≡ true → text_lt t s ≡ false
unfolding text_lt
text_lt-asym s [] h = cc
text_lt-asym [] (b ∷ t) h = refl
text_lt-asym (a ∷ s) (b ∷ t) h = ground (arith, text_lt-asym s t)

pub text_lt-cotrans :
    (x y z : Text) → text_lt z y ≡ false → text_lt y x ≡ false → text_lt z x ≡ false
unfolding text_lt
text_lt-cotrans [] y z h g = refl
text_lt-cotrans (a ∷ x) [] z h g = cc
text_lt-cotrans (a ∷ x) (b ∷ y) [] h g = cc
text_lt-cotrans (a ∷ x) (b ∷ y) (c ∷ z) h g = ground (arith, text_lt-cotrans x y z)
