-- ===== src/Encoding/Join.antt =====
-- `strings.Join`, and when what is joined can be told apart again.
use vps_manager.Base.{
  ℕ, ◌≡◌, ◌≢◌, refl, List, [], ◌∷◌, ◌++◌, arith, Text, All, length, Bool, true, false, all_of, ◌==◌,
  if◌then◌else◌,
}

unfoldable pub join : Text → List Text → Text
join sep [] = []
join sep (s ∷ []) = s
join sep (s ∷ t ∷ rest) = s ++ (sep ++ join sep (t ∷ rest))

-- No byte of the text is `c`.
abbrev pub Lacks : ℕ → Text → Type 0
Lacks c = All (λ b. b ≢ c)

-- A text without `c` in front of the first `c` can be read back.
pub split_unique :
    (c : ℕ) (s t : Text) {u v : Text}
    → Lacks c s
    → Lacks c t
    → s ++ c ∷ u ≡ t ++ c ∷ v
    → (s ≡ t) × (u ≡ v)
split_unique c [] [] hs ht e = (refl, cc)
split_unique c [] (b ∷ t) hs ht e = absurd (ht.0 (cc))
split_unique c (a ∷ s) [] hs ht e = absurd (hs.0 (cc))
split_unique c (a ∷ s) (b ∷ t) {u} {v} hs ht e =
    let ih : (s ≡ t) × (u ≡ v) = split_unique c s t hs.1 ht.1 (cc) in (ground (arith, ih.0), ih.1)

-- Texts of the same length in front of two others can be told apart.
pub append_unique :
    (s t : Text) {u v : Text} → length s ≡ length t → s ++ u ≡ t ++ v → (s ≡ t) × (u ≡ v)
append_unique [] [] h e = (refl, e)
append_unique [] (b ∷ t) h e = absurd (omega arith)
append_unique (a ∷ s) [] h e = absurd (omega arith)
append_unique (a ∷ s) (b ∷ t) {u} {v} h e =
    let ih : (s ≡ t) × (u ≡ v) = append_unique s t (omega arith) (cc) in
    (ground (arith, ih.0), ih.1)

-- As many texts without the separator on both sides can be told apart.
pub join_unique :
    (c : ℕ) (xs ys : List Text)
    → length xs ≡ length ys
    → All (Lacks c) xs
    → All (Lacks c) ys
    → join (c ∷ []) xs ≡ join (c ∷ []) ys
    → xs ≡ ys
unfolding join
join_unique c [] [] n hx hy e = refl
join_unique c [] (y ∷ ys) n hx hy e = absurd (omega arith)
join_unique c (x ∷ xs) [] n hx hy e = absurd (omega arith)
join_unique c (x ∷ []) (y ∷ []) n hx hy e = ground (arith, e)
join_unique c (x ∷ []) (y ∷ y' ∷ ys) n hx hy e = absurd (omega arith)
join_unique c (x ∷ x' ∷ xs) (y ∷ []) n hx hy e = absurd (omega arith)
join_unique c (x ∷ x' ∷ xs) (y ∷ y' ∷ ys) n hx hy e =
    let parts : (x ≡ y) × (join (c ∷ []) (x' ∷ xs) ≡ join (c ∷ []) (y' ∷ ys)) =
      split_unique c x y hx.0 hy.0 e in
    let ih : x' ∷ xs ≡ y' ∷ ys =
      join_unique c (x' ∷ xs) (y' ∷ ys) (omega arith) hx.1 hy.1 parts.1 in
    ground (arith, parts.0, ih)

pub all_of-Lacks : (p : ℕ → Bool) (c : ℕ) (s : Text) → p c ≡ false → all_of p s ≡ true → Lacks c s
all_of-Lacks p c [] no_c h = tt
all_of-Lacks p c (d ∷ s) no_c h =
    (λ e. ground (arith, e, no_c, h), all_of-Lacks p c s no_c (ground (arith, h)))

pub Lacks-append : (c : ℕ) (s t : Text) → Lacks c s → Lacks c t → Lacks c (s ++ t)
Lacks-append c [] t hs ht = ht
Lacks-append c (b ∷ s) t hs ht = (hs.0, Lacks-append c s t hs.1 ht)

pub Lacks-parts : (c : ℕ) (s t : Text) → Lacks c (s ++ t) → Lacks c s × Lacks c t
Lacks-parts c [] t h = (tt, h)
Lacks-parts c (b ∷ s) t h = let ih = Lacks-parts c s t h.1 in ((h.0, ih.0), ih.1)

-- The texts between the separators; there is one more than separators.
abbrev add_front : ℕ → List Text → List Text
add_front b [] = (b ∷ []) ∷ []
add_front b (s ∷ rest) = (b ∷ s) ∷ rest

-- strings.Split with a separator of one byte
unfoldable pub split : ℕ → Text → List Text
split c [] = [] ∷ []
split c (b ∷ s) = if b == c then [] ∷ split c s else add_front b (split c s)
