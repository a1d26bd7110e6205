-- ===== src/Audit/Redaction.antt =====
-- What the sanitized details of an audit event contain.
use vps_manager.Base.{ℕ, ◌+◌, ◌≡◌, refl, true, false, arith, Text, ltb, inl, inr, ◌⊎◌, Bool-cases}
use vps_manager.Audit.{
  Value, null, nil_pointer, other_map, plain, binary, keyed, structure, list, pointer, Items, nil,
  item, Members, end, member, sensitive_key, redacted, sanitize_value, sanitize_members,
  sanitize_items, sanitize_details,
}

-- The value stands under the key, in a map or a struct somewhere in the tree, at any depth.
unfoldable mutual
  pub Holds : Text → Value → Value → Type 0
  Holds key v (keyed members) = MembersHold key v members
  Holds key v (structure fields) = MembersHold key v fields
  Holds key v (list items) = ItemsHold key v items
  Holds key v (pointer w) = Holds key v w
  Holds key v _ = ⊥

  ItemsHold : Text → Value → Items → Type 0
  ItemsHold key v nil = ⊥
  ItemsHold key v (item w items) = Holds key v w ⊎ ItemsHold key v items

  pub MembersHold : Text → Value → Members → Type 0
  MembersHold key v end = ⊥
  MembersHold key v (member k w members) =
      ((k ≡ key) × (w ≡ v)) ⊎ (Holds key v w ⊎ MembersHold key v members)

-- A struct with these fields stands in the tree, at any depth, but under no key that may name a
-- secret and not inside another struct.
unfoldable mutual
  pub HasStruct : Members → Value → Type 0
  HasStruct fields (structure own) = own ≡ fields
  HasStruct fields (keyed members) = MembersHaveStruct fields members
  HasStruct fields (list items) = ItemsHaveStruct fields items
  HasStruct fields (pointer w) = HasStruct fields w
  HasStruct fields _ = ⊥

  ItemsHaveStruct : Members → Items → Type 0
  ItemsHaveStruct fields nil = ⊥
  ItemsHaveStruct fields (item w items) = HasStruct fields w ⊎ ItemsHaveStruct fields items

  pub MembersHaveStruct : Members → Members → Type 0
  MembersHaveStruct fields end = ⊥
  MembersHaveStruct fields (member key w members) =
      ((sensitive_key key ≡ false) × HasStruct fields w) ⊎ MembersHaveStruct fields members

-- The value is the replacement, or stands under the key in a struct of which this is so.
abbrev pub IsRedactedBut : (Members → Type 0) → Text → Value → Type 0
IsRedactedBut InInput key v =
    (v ≡ redacted) ⊎ ((fields : Members) × InInput fields × MembersHold key v fields)

-- Outside structs, the tree has maps, lists, texts and nils alone: no bytes, no pointers.
unfoldable mutual
  pub IsTextual : Value → Type 0
  IsTextual null = Unit
  IsTextual (plain t) = Unit
  IsTextual (structure fields) = Unit
  IsTextual (keyed members) = MembersAreTextual members
  IsTextual (list items) = ItemsAreTextual items
  IsTextual _ = ⊥

  ItemsAreTextual : Items → Type 0
  ItemsAreTextual nil = Unit
  ItemsAreTextual (item v items) = IsTextual v × ItemsAreTextual items

  pub MembersAreTextual : Members → Type 0
  MembersAreTextual end = Unit
  MembersAreTextual (member key v members) = IsTextual v × MembersAreTextual members

mutual
  unfolding sanitize_value Holds HasStruct

  clean_value :
      (w : Value) (depth : ℕ) (key : Text) (v : Value)
      → Holds key v (sanitize_value w depth)
      → sensitive_key key ≡ true
      → IsRedactedBut (λ fields. HasStruct fields w) key v
  clean_value null depth key v h s = absurd h
  clean_value nil_pointer depth key v h s = absurd (ground arith)
  clean_value other_map depth key v h s = absurd (ground arith)
  clean_value (plain t) depth key v h s = absurd (ground arith)
  clean_value (binary n) depth key v h s = absurd (ground arith)
  clean_value (structure fields) depth key v h s = elim (Bool-cases (ltb 12 depth)) [
    | inl deep ↦ absurd (ground (arith, deep, h))
    | inr shallow ↦ inr (fields, refl, ground (arith, shallow, h))
  ]
  clean_value (keyed members) depth key v h s = elim (Bool-cases (ltb 12 depth)) [
    | inl deep ↦ absurd (ground (arith, deep, h))
    | inr shallow ↦ clean_members members (depth + 1) key v (ground (arith, shallow, h)) s
  ]
  clean_value (list items) depth key v h s = elim (Bool-cases (ltb 12 depth)) [
    | inl deep ↦ absurd (ground (arith, deep, h))
    | inr shallow ↦ clean_items items (depth + 1) key v (ground (arith, shallow, h)) s
  ]
  clean_value (pointer w) depth key v h s = elim (Bool-cases (ltb 12 depth)) [
    | inl deep ↦ absurd (ground (arith, deep, h))
    | inr shallow ↦ clean_value w (depth + 1) key v (ground (arith, shallow, h)) s
  ]

  clean_items :
      (items : Items) (depth : ℕ) (key : Text) (v : Value)
      → ItemsHold key v (sanitize_items items depth)
      → sensitive_key key ≡ true
      → IsRedactedBut (λ fields. ItemsHaveStruct fields items) key v
  clean_items nil depth key v h s = absurd h
  clean_items (item w items) depth key v (inl h) s = elim (clean_value w depth key v h s) [
    | inl same ↦ inl same
    | inr (fields, there, held) ↦ inr (fields, inl there, held)
  ]
  clean_items (item w items) depth key v (inr h) s = elim (clean_items items depth key v h s) [
    | inl same ↦ inl same
    | inr (fields, there, held) ↦ inr (fields, inr there, held)
  ]

  clean_members :
      (members : Members) (depth : ℕ) (key : Text) (v : Value)
      → MembersHold key v (sanitize_members members depth)
      → sensitive_key key ≡ true
      → IsRedactedBut (λ fields. MembersHaveStruct fields members) key v
  clean_members end depth key v h s = absurd h
  clean_members (member k w members) depth key v (inl h) s = inl (ground arith)
  clean_members (member k w members) depth key v (inr (inl h)) s =
      elim (Bool-cases (sensitive_key k)) [
        | inl secret ↦ absurd (ground (arith, secret, h))
        | inr open_ ↦ elim (clean_value w depth key v (ground (arith, open_, h)) s) [
          | inl same ↦ inl same
          | inr (fields, there, held) ↦ inr (fields, inl (open_, there), held)
        ]
      ]
  clean_members (member k w members) depth key v (inr (inr h)) s =
      elim (clean_members members depth key v h s) [
        | inl same ↦ inl same
        | inr (fields, there, held) ↦ inr (fields, inr there, held)
      ]

-- After sanitizing, what stands under a key that may name a secret, at any depth, is the replacement,
-- unless it stands in a struct that the input has under no such key: structs are passed on whole, with
-- the values of all their fields.
pub details_redacted :
    (input : Members) (key : Text) (v : Value)
    → MembersHold key v (sanitize_details input)
    → sensitive_key key ≡ true
    → (v ≡ redacted)
      ⊎ ((fields : Members) × MembersHaveStruct fields input × MembersHold key v fields)
unfolding sanitize_details
details_redacted input key v h s = clean_members input 0 key v h s

mutual
  unfolding sanitize_value IsTextual

  IsTextual-value : (w : Value) (depth : ℕ) → IsTextual (sanitize_value w depth)
  IsTextual-value null depth = tt
  IsTextual-value nil_pointer depth = ground arith
  IsTextual-value other_map depth = ground arith
  IsTextual-value (plain t) depth = ground arith
  IsTextual-value (binary n) depth = ground arith
  IsTextual-value (structure fields) depth = ground arith
  IsTextual-value (keyed members) depth = ground (arith, textual_members members (depth + 1))
  IsTextual-value (list items) depth = ground (arith, textual_items items (depth + 1))
  IsTextual-value (pointer w) depth = ground (arith, IsTextual-value w (depth + 1))

  textual_items : (items : Items) (depth : ℕ) → ItemsAreTextual (sanitize_items items depth)
  textual_items nil depth = tt
  textual_items (item w items) depth = (IsTextual-value w depth, textual_items items depth)

  textual_members :
      (members : Members) (depth : ℕ) → MembersAreTextual (sanitize_members members depth)
  textual_members end depth = tt
  textual_members (member k w members) depth =
      (ground (arith, IsTextual-value w depth), textual_members members depth)

-- After sanitizing, no byte slices, pointers or maps with other keys than texts are left, at any
-- depth outside structs.
pub details_textual : (input : Members) → MembersAreTextual (sanitize_details input)
unfolding sanitize_details
details_textual input = textual_members input 0
