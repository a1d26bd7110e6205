-- ===== src/Repository/Assets.antt =====
-- The assets: what their maps promise to callers, who know them by installation and id.
use vps_manager.Base.{
  ℕ, ◌+◌, ◌%◌, ◌^◌, ◌<◌, ◌≡◌, refl, sym, ap, ◌∙◌, Bool, false, ◌&&◌, Option, none, some, List, [],
  ◌∷◌, arith, Text, lookup, lookup-insert, lookup-delete, text_eq, text_eq_iff, text_eq_refl,
  if◌then◌else◌, Check, ok, err, inl, inr, Bool-cases, Option-cases, Result-cases, ◌==◌,
}
use mathlib.Core.Path.{fun_ext}
use vps_manager.Repository.Types.{Asset, Error, not_found, conflict}
use vps_manager.Repository.Keys.{composite, composite-injective}
use vps_manager.Repository.Validation.{validate_asset}
use vps_manager.Repository.{
  MemoryRepository, checked, is_next, asset_key, create_asset, update_asset, delete_asset,
}

pub data Call : Type 0 where
  creates : Asset → Call
  updates : Asset → ℕ → Call
  deletes : Text → Text → ℕ → Call

unfoldable pub step : MemoryRepository → Call → MemoryRepository × Check Error
step r (creates asset) = create_asset r asset
step r (updates asset expected) = update_asset r asset expected
step r (deletes installation_id id expected) = delete_asset r installation_id id expected

-- The abstract view: a function of the installation and the id.
abbrev pub Store : Type 0
Store = Text → Text → Option Asset

abbrev pub view : MemoryRepository → Store
view r installation_id id = lookup (composite (installation_id ∷ id ∷ [])) r.assets

abbrev is_at : Text → Text → Text → Text → Bool
is_at i j installation_id id = text_eq i installation_id && text_eq j id

abbrev put : Store → Asset → Store
put s asset i j = if is_at asset.installation_id asset.id i j then some asset else s i j

abbrev spec_create : Store → Asset → Option Asset → Store × Check Error
spec_create s asset none = (put s asset, ok tt)
spec_create s asset (some current) = (s, err conflict)

abbrev spec_update : Store → Asset → ℕ → Option Asset → Store × Check Error
spec_update s asset expected none = (s, err not_found)
spec_update s asset expected (some current) =
    if is_next current.version expected asset.version
    then (put s asset, ok tt)
    else (s, err conflict)

abbrev spec_delete : Store → Text → Text → ℕ → Option Asset → Store × Check Error
spec_delete s i j expected none = (s, err not_found)
spec_delete s i j expected (some current) =
    if current.version == expected
    then (λ i' j'. if is_at i j i' j' then none else s i' j', ok tt)
    else (s, err conflict)

-- What the calls promise of the view.
unfoldable pub spec : Store → Call → Store × Check Error
spec s (creates asset) =
    checked (validate_asset asset) s (spec_create s asset (s asset.installation_id asset.id))
spec s (updates asset expected) =
    checked (validate_asset asset) s
      (spec_update s asset expected (s asset.installation_id asset.id))
spec s (deletes i j expected) = spec_delete s i j expected (s i j)

keys_same :
    (i j i' j' : Text) → composite (i ∷ j ∷ []) ≡ composite (i' ∷ j' ∷ []) → (i ≡ i') × (j ≡ j')
keys_same i j i' j' e =
    let same : i ∷ j ∷ [] ≡ i' ∷ j' ∷ [] = composite-injective (i ∷ j ∷ []) (i' ∷ j' ∷ []) e in
    (cc, cc)

key_eq :
    (i j i' j' : Text)
    → text_eq (composite (i ∷ j ∷ [])) (composite (i' ∷ j' ∷ [])) ≡ is_at i j i' j'
key_eq i j i' j' = elim (Bool-cases (text_eq (composite (i ∷ j ∷ [])) (composite (i' ∷ j' ∷ [])))) [
  | inl same ↦
      let both = keys_same i j i' j' ((text_eq_iff _ _).0 same) in
      rw (same, both.0, both.1, text_eq_refl i', text_eq_refl j') refl
  | inr other ↦ elim (Bool-cases (is_at i j i' j')) [
    | inr apart ↦ rw (other, apart) refl
    | inl same ↦
        let both : (i ≡ i') × (j ≡ j') = ground (arith, text_eq_iff i i', text_eq_iff j j') in
        absurd (
          ground (
            arith,
            other,
            ap (λ x. composite (x ∷ j ∷ [])) both.0,
            ap (λ x. composite (i' ∷ x ∷ [])) both.1,
            text_eq_iff (composite (i ∷ j ∷ [])) (composite (i' ∷ j' ∷ [])),
          ))
  ]
]

module _ (r : MemoryRepository) (i j : Text) where
  Refines : Call → Type 0
  Refines c =
      (view (step r c).0 i j ≡ (spec (view r) c).0 i j) × ((step r c).1 ≡ (spec (view r) c).1)

  create-Refines : (asset : Asset) → Refines (creates asset)
  unfolding Refines step create_asset spec
  create-Refines asset = elim (Result-cases (validate_asset asset)) [
    | inr (e, no_) ↦ rw no_ (refl, refl)
    | inl (u, yes_) ↦ elim (Option-cases (lookup (asset_key asset) r.assets)) [
      | inl absent ↦ ground (
        arith,
        yes_,
        absent,
        lookup-insert (asset_key asset) (composite (i ∷ j ∷ [])) asset r.assets,
        key_eq asset.installation_id asset.id i j,
      )
      | inr (a, present) ↦ ground (arith, yes_, present)
    ]
  ]

  update-Refines : (asset : Asset) (expected : ℕ) → Refines (updates asset expected)
  unfolding Refines step update_asset spec
  update-Refines asset expected = elim (Result-cases (validate_asset asset)) [
    | inr (e, no_) ↦ rw no_ (refl, refl)
    | inl (u, yes_) ↦ elim (Option-cases (lookup (asset_key asset) r.assets)) [
      | inl absent ↦ ground (arith, yes_, absent)
      | inr (a, present) ↦ ground (
        arith,
        yes_,
        present,
        lookup-insert (asset_key asset) (composite (i ∷ j ∷ [])) asset r.assets,
        key_eq asset.installation_id asset.id i j,
      )
    ]
  ]

  delete-Refines : (i' j' : Text) (expected : ℕ) → Refines (deletes i' j' expected)
  unfolding Refines step delete_asset spec
  delete-Refines i' j' expected = elim (Option-cases (view r i' j')) [
    | inl absent ↦ ground (arith, absent)
    | inr (a, present) ↦ ground (
      arith,
      present,
      lookup-delete (composite (i' ∷ j' ∷ [])) (composite (i ∷ j ∷ [])) r.assets,
      key_eq i' j' i j,
    )
  ]

  refines : (c : Call) → Refines c
  refines (creates asset) = create-Refines asset
  refines (updates asset expected) = update-Refines asset expected
  refines (deletes i' j' expected) = delete-Refines i' j' expected

-- The results of the calls, one after the other.
unfoldable pub run : MemoryRepository → List Call → MemoryRepository × List (Check Error)
run r [] = (r, [])
run r (c ∷ calls) = let s = step r c in let rest = run s.0 calls in (rest.0, s.1 ∷ rest.1)

unfoldable pub run_spec : Store → List Call → Store × List (Check Error)
run_spec s [] = (s, [])
run_spec s (c ∷ calls) = let t = spec s c in let rest = run_spec t.0 calls in (rest.0, t.1 ∷ rest.1)

-- Whatever the calls that create, update and delete assets, they give the results that the
-- specification over functions of installation and id gives, and leave the view that it leaves.
pub assets_refine :
    (r : MemoryRepository) (calls : List Call)
    → (view (run r calls).0 ≡ (run_spec (view r) calls).0)
      × ((run r calls).1 ≡ (run_spec (view r) calls).1)
unfolding run run_spec Refines
assets_refine r [] = (refl, refl)
assets_refine r (c ∷ calls) =
    let here : view (step r c).0 ≡ (spec (view r) c).0 =
      fun_ext (λ i. fun_ext (λ j. (refines r i j c).0)) in
    let ih = assets_refine (step r c).0 calls in
    (ih.0 ∙ ap (λ s. (run_spec s calls).0) here, rw (sym here, (refines r [] [] c).1, ih.1) refl)

updated :
    (r r' : MemoryRepository) (a : Asset) (expected : ℕ)
    → update_asset r a expected ≡ (r', ok tt)
    → (lookup (asset_key a) r'.assets ≡ some a) × (a.version ≡ (expected + 1) % 2 ^ 64)
unfolding update_asset
updated r r' a expected h = elim (Result-cases (validate_asset a)) [
  | inr (e, no_) ↦ ground (arith, h, no_)
  | inl (u, yes_) ↦ elim (Option-cases (lookup (asset_key a) r.assets)) [
    | inl absent ↦ ground (arith, h, yes_, absent)
    | inr (c, present) ↦ ground (
      arith,
      h,
      yes_,
      present,
      lookup-insert (asset_key a) (asset_key a) a r.assets,
      text_eq_refl (asset_key a),
    )
  ]
]

-- After an update from a version, another update of the same asset from that version is refused as a
-- conflict, if what it writes is valid.
pub second_update_conflicts :
    (r r' : MemoryRepository) (a b : Asset) (expected : ℕ)
    → expected < 2 ^ 64
    → update_asset r a expected ≡ (r', ok tt)
    → b.installation_id ≡ a.installation_id
    → b.id ≡ a.id
    → validate_asset b ≡ ok tt
    → update_asset r' b expected ≡ (r', err conflict)
unfolding update_asset
second_update_conflicts r r' a b expected w h i j v =
    let key : asset_key b ≡ asset_key a =
      ap (λ x. composite (x ∷ b.id ∷ [])) i ∙ ap (λ x. composite (a.installation_id ∷ x ∷ [])) j in
    let now = updated r r' a expected h in
    let stale : (a.version == expected) ≡ false = ground (arith, now.1) in
    rw (v, key, now.0, stale) refl
