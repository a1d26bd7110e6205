-- ===== src/Repository/Keys.antt =====
-- services/persistence/memory.go: `composite`, the keys of the maps: each part with its length in
-- front and a bar behind.
use vps_manager.Base.{ℕ, ◌≡◌, ◌≢◌, refl, sym, List, [], ◌∷◌, ◌++◌, arith, Text, length}
use vps_manager.Encoding.Decimal.{itoa, itoa-injective, itoa-IsDigits, IsDigits}
use vps_manager.Encoding.Join.{Lacks, split_unique, append_unique}

unfoldable pub composite : List Text → Text
composite [] = []
composite (part ∷ parts) = itoa (length part) ++ b':' ∷ (part ++ b'|' ∷ composite parts)

IsDigits-Lacks : (s : Text) → IsDigits s → Lacks b':' s
IsDigits-Lacks [] h = tt
IsDigits-Lacks (c ∷ s) h = (λ e. omega (arith, h.0.1, e), IsDigits-Lacks s h.1)

append_cons-ne-nil : (s t : Text) (c : ℕ) → s ++ c ∷ t ≢ []
append_cons-ne-nil [] t c e = cc
append_cons-ne-nil (a ∷ s) t c e = cc

-- Different lists of texts have different keys, whatever bytes the texts contain.
pub composite-injective : (xs ys : List Text) → composite xs ≡ composite ys → xs ≡ ys
unfolding composite
composite-injective [] [] e = refl
composite-injective [] (y ∷ ys) e = absurd (append_cons-ne-nil (itoa (length y)) _ b':' (sym e))
composite-injective (x ∷ xs) [] e = absurd (append_cons-ne-nil (itoa (length x)) _ b':' e)
composite-injective (x ∷ xs) (y ∷ ys) e =
    let s =
      split_unique b':' (itoa (length x)) (itoa (length y))
        (IsDigits-Lacks _ (itoa-IsDigits (length x))) (IsDigits-Lacks _ (itoa-IsDigits (length y)))
        e in
    let t = append_unique x y (itoa-injective _ _ s.0) s.1 in
    let rest = composite-injective xs ys (cc) in ground (arith, t.0, rest)
