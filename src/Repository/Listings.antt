-- ===== src/Repository/Listings.antt =====
-- What the listings of assets give.
use vps_manager.Base.{
  zero, suc, pos, negsuc, keep_if-both, ◌≤◌, ◌≡◌, refl, sym, Bool, true, none, some, List, [], ◌∷◌,
  arith, ℤ, Text, Table, codes, lookup, insert, delete, lookup-delete, text_eq_iff, text_lt, ok,
  inl, inr, Option-cases, Result-cases, All, All-map, length, length-take-le, take, take-All,
  take-Sorted, keep_if, sort_by, sort_by-All, sort_by-Sorted, Sorted, text_lt-asym, text_lt-cotrans,
}
use vps_manager.Repository.Types.{Asset, normalize_limit}
use vps_manager.Repository.Keys.{composite}
use vps_manager.Repository.Validation.{validate_asset, validate_identifier}
use vps_manager.Repository.{
  MemoryRepository, asset_key, values, lists, get_asset, list_assets, create_asset, update_asset,
  delete_asset,
}
use vps_manager.Repository.Assets.{Call, creates, updates, deletes, step, run}

-- Each asset stands under its own key, once, and was valid when it was stored.
abbrev pub IsFiled : Table Asset → Type 0
IsFiled [] = Unit
IsFiled ((key, asset) ∷ m) =
    (key ≡ asset_key asset) × (validate_asset asset ≡ ok tt) × (lookup key m ≡ none) × IsFiled m

delete-IsFiled : (key : Text) (m : Table Asset) → IsFiled m → IsFiled (delete key m)
unfolding delete
delete-IsFiled key [] h = tt
delete-IsFiled key ((k, a) ∷ m) h = ground (arith, delete-IsFiled key m h.3, lookup-delete key k m)

insert-IsFiled :
    (asset : Asset) (m : Table Asset)
    → validate_asset asset ≡ ok tt
    → IsFiled m
    → IsFiled (insert (asset_key asset) asset m)
unfolding insert
insert-IsFiled asset m v h = (
  refl,
  v,
  ground (
    arith,
    lookup-delete (asset_key asset) (asset_key asset) m,
    text_eq_iff (asset_key asset) (asset_key asset),
  ),
  delete-IsFiled (asset_key asset) m h,
)

step-IsFiled : (r : MemoryRepository) (c : Call) → IsFiled r.assets → IsFiled (step r c).0.assets
unfolding step create_asset update_asset delete_asset
step-IsFiled r (creates asset) h = elim (Result-cases (validate_asset asset)) [
  | inr (e, no_) ↦ rw no_ h
  | inl (u, yes_) ↦ elim (Option-cases (lookup (asset_key asset) r.assets)) [
    | inl absent ↦ rw (yes_, absent) (insert-IsFiled asset r.assets yes_ h)
    | inr (a, present) ↦ rw (yes_, present) h
  ]
]
step-IsFiled r (updates asset expected) h = ground (arith, insert-IsFiled asset r.assets)
step-IsFiled r (deletes i j expected) h =
    ground (arith, delete-IsFiled (composite (i ∷ j ∷ [])) r.assets)

-- Whatever assets are created, updated and deleted, each stored one is valid and stands once, under
-- the key of its own installation and id.
pub run-IsFiled :
    (r : MemoryRepository) (calls : List Call) → IsFiled r.assets → IsFiled (run r calls).0.assets
unfolding run
run-IsFiled r [] h = h
run-IsFiled r (c ∷ calls) h = run-IsFiled (step r c).0 calls (step-IsFiled r c h)

-- What is in the table is found under its key.
values-found : (m : Table Asset) → IsFiled m → All (λ a. lookup (asset_key a) m ≡ some a) (values m)
unfolding lookup
values-found [] h = tt
values-found ((k, a) ∷ m) h = (
  ground (arith, text_eq_iff k (asset_key a)),
  All-map (λ b. lookup (asset_key b) m ≡ some b) (λ b. lookup (asset_key b) ((k, a) ∷ m) ≡ some b)
      (values m) (λ b found. ground (arith, found, text_eq_iff k (asset_key b)))
      (values-found m h.3),
)

-- What an asset of a listing is: one that is stored, of the installation, after the cursor.
abbrev pub IsListed : MemoryRepository → Text → Text → Asset → Type 0
IsListed r installation_id after_id a =
    (get_asset r installation_id a.id ≡ ok a)
    × (a.installation_id ≡ installation_id)
    × (text_lt after_id a.id ≡ true)

abbrev pub by_id : Asset → Asset → Bool
by_id x y = text_lt x.id y.id

listed :
    (r : MemoryRepository) (i after_id : Text) (a : Asset)
    → (lookup (asset_key a) r.assets ≡ some a) × (lists i after_id a.installation_id a.id ≡ true)
    → IsListed r i after_id a
unfolding get_asset
listed r i after_id a h =
    let same : a.installation_id ≡ i = ground (arith, h.1, text_eq_iff a.installation_id i) in
    (rw (sym same, h.0) refl, same, ground arith)

abbrev page : MemoryRepository → Text → ℤ → Text → List Asset
page r i limit after_id = take (normalize_limit limit) (
    sort_by by_id
      (keep_if (λ asset. lists i after_id asset.installation_id asset.id) (values r.assets)))

is_page :
    (r : MemoryRepository) (i : Text) (limit : ℤ) (after_id : Text) (items : List Asset)
    → list_assets r i limit after_id ≡ ok items
    → items ≡ page r i limit after_id
unfolding list_assets
is_page r i limit after_id items h =
    elim (Result-cases (validate_identifier (codes "installation id") i)) [
      | inr (e, no_) ↦ ground (arith, h, no_)
      | inl (u, yes_) ↦ ground (arith, h, yes_)
    ]

limit_le : (limit : ℤ) → normalize_limit limit ≤ 500
unfolding normalize_limit
limit_le (negsuc n) = omega arith
limit_le (pos zero) = omega arith
limit_le (pos (suc n)) = ground arith

-- A listing holds assets of its installation alone, each as a read of it gives, in the order of their
-- ids, all after the cursor, and no more than the limit, itself at most 500.
pub list_assets_sound :
    (r : MemoryRepository) (installation_id : Text) (limit : ℤ) (after_id : Text)
    (items : List Asset)
    → IsFiled r.assets
    → list_assets r installation_id limit after_id ≡ ok items
    → All (IsListed r installation_id after_id) items
      × Sorted by_id items
      × (length items ≤ normalize_limit limit)
      × (normalize_limit limit ≤ 500)
list_assets_sound r i limit after_id items f h =
    let n = normalize_limit limit in
    let keeps : Asset → Bool = λ asset. lists i after_id asset.installation_id asset.id in
    let kept : List Asset = keep_if keeps (values r.assets) in
    let found = values-found r.assets f in
    rw (is_page r i limit after_id items h) (
      take-All (IsListed r i after_id) n (sort_by by_id kept) (
          sort_by-All (IsListed r i after_id) by_id kept (
            All-map (λ a. (lookup (asset_key a) r.assets ≡ some a) × (keeps a ≡ true))
              (IsListed r i after_id) kept (listed r i after_id)
              (keep_if-both (λ a. lookup (asset_key a) r.assets ≡ some a) keeps (values r.assets)
                found))),
      take-Sorted by_id (λ x y. text_lt-asym x.id y.id) (λ x y z. text_lt-cotrans x.id y.id z.id) n
          (sort_by by_id kept)
          (sort_by-Sorted by_id (λ x y. text_lt-asym x.id y.id)
            (λ x y z. text_lt-cotrans x.id y.id z.id) kept),
      length-take-le n (sort_by by_id kept),
      limit_le limit,
    )
