-- ===== src/Base/Sorting.antt =====
-- `sort.Slice` as an insertion sort, and `items[:limit]` on what it gives. Elements of which neither
-- is less may stand in any order in Go; here they keep theirs.
use Prim.Native.Nat.{ℕ, zero, suc}
use mathlib.Core.Path.{◌≡◌}
use mathlib.Core.Bool.{Bool, true, false}
use mathlib.Core.List.{List, [], ◌∷◌}
use mathlib.Core.Logic.{inl, inr}
use vps_manager.Base.Tests.{Bool-cases, if◌then◌else◌}
use vps_manager.Base.Lists.{take, All, keep_if}

module _ {ℓ} {A : Type ℓ} where
  unfoldable insert_by : (A → A → Bool) → A → List A → List A
  insert_by lt x [] = x ∷ []
  insert_by lt x (y ∷ ys) = if lt y x then y ∷ insert_by lt x ys else x ∷ y ∷ ys

  unfoldable pub sort_by : (A → A → Bool) → List A → List A
  unfolding insert_by
  sort_by lt [] = []
  sort_by lt (x ∷ xs) = insert_by lt x (sort_by lt xs)

  -- No element is less than one before it.
  abbrev pub Sorted : (A → A → Bool) → List A → Type ℓ
  Sorted lt [] = Unit
  Sorted lt (x ∷ xs) = All (λ y. lt y x ≡ false) xs × Sorted lt xs

  module _ {κ} (P : A → Type κ) where
    insert_by-All :
        (lt : A → A → Bool) (x : A) (xs : List A) → P x → All P xs → All P (insert_by lt x xs)
    unfolding insert_by
    insert_by-All lt x [] px h = (px, tt)
    insert_by-All lt x (y ∷ ys) px h = elim (Bool-cases (lt y x)) [
      | inl less ↦ rw less (h.0, insert_by-All lt x ys px h.1)
      | inr more ↦ rw more (px, h)
    ]

    pub sort_by-All : (lt : A → A → Bool) (xs : List A) → All P xs → All P (sort_by lt xs)
    unfolding sort_by
    sort_by-All lt [] h = tt
    sort_by-All lt (x ∷ xs) h = insert_by-All lt x (sort_by lt xs) h.0 (sort_by-All lt xs h.1)

    pub take-All : (n : ℕ) (xs : List A) → All P xs → All P (take n xs)
    take-All zero xs h = tt
    take-All (suc n) [] h = tt
    take-All (suc n) (x ∷ xs) h = (h.0, take-All n xs h.1)

  pub keep_if-All : (p : A → Bool) (xs : List A) → All (λ x. p x ≡ true) (keep_if p xs)
  keep_if-All p [] = tt
  keep_if-All p (x ∷ xs) = elim (Bool-cases (p x)) [
    | inl yes_ ↦ rw yes_ (yes_, keep_if-All p xs)
    | inr no_ ↦ rw no_ (keep_if-All p xs)
  ]

  -- What passes the test, with what was known of it before.
  pub keep_if-both {κ} :
      (P : A → Type κ) (p : A → Bool) (xs : List A)
      → All P xs
      → All (λ x. P x × (p x ≡ true)) (keep_if p xs)
  keep_if-both P p [] h = tt
  keep_if-both P p (x ∷ xs) h = elim (Bool-cases (p x)) [
    | inl yes_ ↦ rw yes_ ((h.0, yes_), keep_if-both P p xs h.1)
    | inr no_ ↦ rw no_ (keep_if-both P p xs h.1)
  ]

  pub All-map {κ μ} :
      (P : A → Type κ) (Q : A → Type μ) (xs : List A) → ((x : A) → P x → Q x) → All P xs → All Q xs
  All-map P Q [] f h = tt
  All-map P Q (x ∷ xs) f h = (f x h.0, All-map P Q xs f h.1)

  -- A test that is transitive and asymmetric where it fails sorts.
  module _ (lt : A → A → Bool) (asym : (x y : A) → lt x y ≡ true → lt y x ≡ false)
      (cotrans : (x y z : A) → lt z y ≡ false → lt y x ≡ false → lt z x ≡ false) where
    insert_by-Sorted : (x : A) (xs : List A) → Sorted lt xs → Sorted lt (insert_by lt x xs)
    unfolding insert_by
    insert_by-Sorted x [] h = (tt, tt)
    insert_by-Sorted x (y ∷ ys) h = elim (Bool-cases (lt y x)) [
      | inl less ↦ rw less (
        insert_by-All (λ z. lt z y ≡ false) lt x ys (asym y x less) h.0,
        insert_by-Sorted x ys h.1,
      )
      | inr more ↦ rw more (
        (
          more,
          All-map (λ z. lt z y ≡ false) (λ z. lt z x ≡ false) ys (λ z zy. cotrans x y z zy more)
              h.0,
        ),
        h,
      )
    ]

    pub sort_by-Sorted : (xs : List A) → Sorted lt (sort_by lt xs)
    unfolding sort_by
    sort_by-Sorted [] = tt
    sort_by-Sorted (x ∷ xs) = insert_by-Sorted x (sort_by lt xs) (sort_by-Sorted xs)

    pub take-Sorted : (n : ℕ) (xs : List A) → Sorted lt xs → Sorted lt (take n xs)
    take-Sorted zero xs h = tt
    take-Sorted (suc n) [] h = tt
    take-Sorted (suc n) (x ∷ xs) h = (take-All (λ y. lt y x ≡ false) n xs h.0, take-Sorted n xs h.1)
