-- ===== src/Repository/Secrets.antt =====
-- services/persistence/types.go: the check that a JSON payload carries no secret. Decoded JSON is a
-- tree; what `encoding/json` reads a text as is a parameter of the checks that use it.
use vps_manager.Base.{
  ℕ, ◌+◌, ◌≡◌, ◌⊎◌, inl, inr, Bool, false, ◌&&◌, ◌||◌, List, [], ◌∷◌, arith, Text, codes, contains,
  lower, ltb, leb, ◌==◌, drop, length, text_eq, if◌then◌else◌, ◌-◌,
}

mutual
  pub data Json : Type 0 where
    scalar : Text → Json
    array : Items → Json
    object : Members → Json

  pub data Items : Type 0 where
    nil : Items
    item : Json → Items → Items

  pub data Members : Type 0 where
    end : Members
    member : Text → Json → Members → Members

-- `-`, `.` and blanks become `_`.
abbrev underscore : Text → Text
underscore [] = []
underscore (c ∷ s) = (if c == b'-' || c == b'.' || c == 32 then b'_' else c) ∷ underscore s

abbrev has_suffix : Text → Text → Bool
has_suffix s suffix =
    leb (length suffix) (length s) && text_eq (drop (length s - length suffix) s) suffix

abbrev secret_names : List Text
secret_names =
    codes "password"
    ∷ codes "passwd"
    ∷ codes "passphrase"
    ∷ codes "private_key"
    ∷ codes "privatekey"
    ∷ codes "secret"
    ∷ codes "client_secret"
    ∷ codes "api_token"
    ∷ codes "access_token"
    ∷ codes "refresh_token"
    ∷ codes "authorization"
    ∷ codes "cookie"
    ∷ codes "set_cookie"
    ∷ codes "credential"
    ∷ codes "credentials"
    ∷ codes "ciphertext"
    ∷ codes "wrapped_key"
    ∷ []

unfoldable pub is_secret_field : Text → Bool
is_secret_field key =
    let normalized = lower (underscore key) in
    if has_suffix normalized (codes "_id")
      || has_suffix normalized (codes "_version")
      || has_suffix normalized (codes "_fingerprint")
    then false
    else contains secret_names normalized

unfoldable mutual
  pub contains_secret_field : Json → ℕ → Bool
  contains_secret_field (scalar s) depth = ltb 64 depth
  contains_secret_field (array items) depth = ltb 64 depth || any_item items depth
  contains_secret_field (object members) depth = ltb 64 depth || any_member members depth

  any_item : Items → ℕ → Bool
  any_item nil depth = false
  any_item (item child items) depth =
      contains_secret_field child (depth + 1) || any_item items depth

  any_member : Members → ℕ → Bool
  any_member end depth = false
  any_member (member key child members) depth =
      is_secret_field key || contains_secret_field child (depth + 1) || any_member members depth

-- A key that stands in an object somewhere in the tree, at any depth.
unfoldable mutual
  pub HasKey : Text → Json → Type 0
  HasKey key (scalar s) = ⊥
  HasKey key (array items) = ItemHasKey key items
  HasKey key (object members) = MemberHasKey key members

  ItemHasKey : Text → Items → Type 0
  ItemHasKey key nil = ⊥
  ItemHasKey key (item child items) = HasKey key child ⊎ ItemHasKey key items

  MemberHasKey : Text → Members → Type 0
  MemberHasKey key end = ⊥
  MemberHasKey key (member k child members) =
      (k ≡ key) ⊎ (HasKey key child ⊎ MemberHasKey key members)

abbrev stands_in : Text → Members → Bool
stands_in key end = false
stands_in key (member k child members) = text_eq k key || stands_in key members

-- No object in the tree has a key twice.
unfoldable mutual
  pub HasDistinctKeys : Json → Type 0
  HasDistinctKeys (scalar s) = Unit
  HasDistinctKeys (array items) = ItemsHaveDistinctKeys items
  HasDistinctKeys (object members) = MembersHaveDistinctKeys members

  ItemsHaveDistinctKeys : Items → Type 0
  ItemsHaveDistinctKeys nil = Unit
  ItemsHaveDistinctKeys (item child items) = HasDistinctKeys child × ItemsHaveDistinctKeys items

  MembersHaveDistinctKeys : Members → Type 0
  MembersHaveDistinctKeys end = Unit
  MembersHaveDistinctKeys (member key child members) =
      (stands_in key members ≡ false) × (HasDistinctKeys child × MembersHaveDistinctKeys members)

mutual
  unfolding contains_secret_field HasKey

  pub safe_keys :
      (value : Json) (depth : ℕ) (key : Text)
      → contains_secret_field value depth ≡ false
      → HasKey key value
      → is_secret_field key ≡ false
  safe_keys (scalar s) depth key h k = elim k [ ]
  safe_keys (array items) depth key h k = safe_items items depth key (ground arith) k
  safe_keys (object members) depth key h k = safe_members members depth key (ground arith) k

  safe_items :
      (items : Items) (depth : ℕ) (key : Text)
      → any_item items depth ≡ false
      → ItemHasKey key items
      → is_secret_field key ≡ false
  safe_items nil depth key h k = elim k [ ]
  safe_items (item child items) depth key h (inl k) =
      safe_keys child (depth + 1) key (ground arith) k
  safe_items (item child items) depth key h (inr k) = safe_items items depth key (ground arith) k

  safe_members :
      (members : Members) (depth : ℕ) (key : Text)
      → any_member members depth ≡ false
      → MemberHasKey key members
      → is_secret_field key ≡ false
  safe_members end depth key h k = elim k [ ]
  safe_members (member j child members) depth key h (inl k) = ground arith
  safe_members (member j child members) depth key h (inr (inl k)) =
      safe_keys child (depth + 1) key (ground arith) k
  safe_members (member j child members) depth key h (inr (inr k)) =
      safe_members members depth key (ground arith) k
