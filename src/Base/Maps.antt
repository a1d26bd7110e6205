-- ===== src/Base/Maps.antt =====
-- Go's maps with string (or digest) keys: association lists whose writes drop the old entry.
-- A read of a missing key is `none`. The programs depend on no order of iteration.
use Prim.Native.Nat.{◌+◌, ◌≤◌, ◌<◌}
use mathlib.Core.Path.{◌≡◌, refl}
use mathlib.Core.Bool.{Bool, true, false}
use mathlib.Core.List.{List, [], ◌∷◌}
use mathlib.Core.Option.{Option, none, some}
use native.Mathlib.Omega.{arith}
use mathlib.Core.Logic.{◌⊎◌, inl, inr}
use vps_manager.Base.Tests.{if◌then◌else◌, Bool-cases}
use vps_manager.Base.Lists.{length, All}
use vps_manager.Base.Bytes.{Text, text_eq, text_eq_iff}

abbrev pub Table {ℓ} : Type ℓ → Type ℓ
Table V = List (Text × V)

module _ {ℓ} {V : Type ℓ} where
  -- v, ok := m[k]
  unfoldable pub lookup : Text → Table V → Option V
  lookup k [] = none
  lookup k ((j, v) ∷ m) = if text_eq j k then some v else lookup k m

  -- delete(m, k)
  unfoldable pub delete : Text → Table V → Table V
  delete k [] = []
  delete k ((j, v) ∷ m) = if text_eq j k then delete k m else (j, v) ∷ delete k m

  -- m[k] = v
  unfoldable pub insert : Text → V → Table V → Table V
  insert k v m = (k, v) ∷ delete k m

  -- for k, v := range m { if !p(v) { delete(m, k) } }
  unfoldable pub keep : (V → Bool) → Table V → Table V
  keep p [] = []
  keep p ((j, v) ∷ m) = if p v then (j, v) ∷ keep p m else keep p m

  pub lookup-delete :
      (k j : Text) (m : Table V)
      → lookup j (delete k m) ≡ (if text_eq k j then none else lookup j m)
  unfolding lookup delete
  lookup-delete k j [] = ground arith
  lookup-delete k j ((i, w) ∷ m) =
      ground (arith, text_eq_iff k j, text_eq_iff i k, text_eq_iff i j, lookup-delete k j m)

  pub lookup-insert :
      (k j : Text) (v : V) (m : Table V)
      → lookup j (insert k v m) ≡ (if text_eq k j then some v else lookup j m)
  unfolding lookup insert
  lookup-insert k j v m = ground (arith, lookup-delete k j m)

  pub length-delete-le : (k : Text) (m : Table V) → length (delete k m) ≤ length m
  unfolding delete
  length-delete-le k [] = omega arith
  length-delete-le k ((j, v) ∷ m) = ground (arith, length-delete-le k m)

  pub length-insert-le : (k : Text) (v : V) (m : Table V) → length (insert k v m) ≤ length m + 1
  unfolding insert
  length-insert-le k v m = omega (arith, length-delete-le k m)

  pub length-keep-le : (p : V → Bool) (m : Table V) → length (keep p m) ≤ length m
  unfolding keep
  length-keep-le p [] = omega arith
  length-keep-le p ((j, v) ∷ m) = ground (arith, length-keep-le p m)

  -- What is absent stays absent, and what passes the test stays.
  pub keep-none :
      (p : V → Bool) (k : Text) (m : Table V) → lookup k m ≡ none → lookup k (keep p m) ≡ none
  unfolding lookup keep
  keep-none p k [] h = refl
  keep-none p k ((j, v) ∷ m) h = ground (arith, keep-none p k m)

  pub keep-kept :
      (p : V → Bool) (k : Text) (v : V) (m : Table V)
      → lookup k m ≡ some v
      → p v ≡ true
      → lookup k (keep p m) ≡ some v
  unfolding lookup keep
  keep-kept p k v [] h t = cc
  keep-kept p k v ((j, w) ∷ m) h t = ground (arith, keep-kept p k v m)

  -- What is found afterwards passed the test.
  pub keep-passed :
      (p : V → Bool) (k : Text) (v : V) (m : Table V) → lookup k (keep p m) ≡ some v → p v ≡ true
  unfolding lookup keep
  keep-passed p k v [] h = cc
  keep-passed p k v ((j, w) ∷ m) h = ground (arith, keep-passed p k v m)

  -- No key stands twice, as in every Go map.
  abbrev pub IsMap : Table V → Type ℓ
  IsMap [] = Unit
  IsMap ((k, v) ∷ m) = (lookup k m ≡ none) × IsMap m

  pub delete-IsMap : (k : Text) (m : Table V) → IsMap m → IsMap (delete k m)
  unfolding delete
  delete-IsMap k [] h = tt
  delete-IsMap k ((j, v) ∷ m) h = ground (arith, delete-IsMap k m h.1, lookup-delete k j m)

  pub insert-IsMap : (k : Text) (v : V) (m : Table V) → IsMap m → IsMap (insert k v m)
  unfolding insert
  insert-IsMap k v m h = (ground (arith, lookup-delete k k m, text_eq_iff k k), delete-IsMap k m h)

  pub keep-IsMap : (p : V → Bool) (m : Table V) → IsMap m → IsMap (keep p m)
  unfolding keep
  keep-IsMap p [] h = tt
  keep-IsMap p ((j, v) ∷ m) h = ground (arith, keep-IsMap p m h.1, keep-none p j m h.0)

  -- What fails the test is gone.
  pub keep-dropped :
      (p : V → Bool) (k : Text) (v : V) (m : Table V)
      → IsMap m
      → lookup k m ≡ some v
      → p v ≡ false
      → lookup k (keep p m) ≡ none
  unfolding lookup keep
  keep-dropped p k v [] h e t = refl
  keep-dropped p k v ((j, w) ∷ m) h e t =
      ground (arith, keep-dropped p k v m h.1, keep-none p k m, text_eq_iff j k)

  -- Deleting a key that is there makes the map smaller.
  pub length-delete-lt :
      (k : Text) (v : V) (m : Table V) → lookup k m ≡ some v → length (delete k m) < length m
  unfolding lookup delete
  length-delete-lt k v [] h = cc
  length-delete-lt k v ((j, w) ∷ m) h = ground (arith, length-delete-le k m, length-delete-lt k v m)

module _ {V : Type 0} where
  -- Where a key is found, the entry stands in the table.
  abbrev pub Found : Text → V → Table V → Type 0
  Found k d [] = ⊥
  Found k d ((j, v) ∷ m) = ((j ≡ k) × (v ≡ d)) ⊎ Found k d m

  pub lookup-Found : (k : Text) (d : V) (m : Table V) → lookup k m ≡ some d → Found k d m
  unfolding lookup
  lookup-Found k d [] h = cc
  lookup-Found k d ((j, v) ∷ m) h = elim (Bool-cases (text_eq j k)) [
    | inl here ↦ inl ((text_eq_iff j k).0 here, ground (arith, here))
    | inr there ↦ inr (lookup-Found k d m (ground (arith, there)))
  ]

  -- What is so of every entry of the table is so of one that is found.
  pub Found-All :
      (P : Text → V → Type 0) (k : Text) (d : V) (m : Table V)
      → All (λ e. P e.0 e.1) m
      → Found k d m
      → P k d
  Found-All P k d [] h f = absurd f
  Found-All P k d ((j, v) ∷ m) h (inl (e, same)) = rw (← e, ← same) h.0
  Found-All P k d ((j, v) ∷ m) h (inr there) = Found-All P k d m h.1 there
