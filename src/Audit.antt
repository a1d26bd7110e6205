-- ===== src/Audit.antt =====
-- services/control-plane/internal/audit/audit.go: the details of audit events without the values of
-- keys that may name secrets. A value is what reflection sees of it.
pub mod Redaction
mod Tests
use vps_manager.Base.{
  ℕ, ◌+◌, Bool, List, [], ◌∷◌, ◌++◌, map, Text, codes, ltb, ◌==◌, ◌||◌, any_of, keep_if, not, lower,
  is_within, if◌then◌else◌,
}
use vps_manager.Encoding.Decimal.{itoa}

-- `null` is a nil value, `nil_pointer` a nil pointer of some type, `binary` a byte slice of that length,
-- `other_map` a map whose keys are no strings, `structure` a struct with its fields by name, `plain` a
-- value of any other kind. Structs and plain values stay as they are.
mutual
  pub data Value : Type 0 where
    null nil_pointer other_map : Value
    plain : Text → Value
    binary : ℕ → Value
    keyed structure : Members → Value
    list : Items → Value
    pointer : Value → Value

  pub data Items : Type 0 where
    nil : Items
    item : Value → Items → Items

  pub data Members : Type 0 where
    end : Members
    member : Text → Value → Members → Members

abbrev pub sensitive_fragments : List Text
sensitive_fragments =
    codes "secret"
    ∷ codes "token"
    ∷ codes "password"
    ∷ codes "passphrase"
    ∷ codes "privatekey"
    ∷ codes "private_key"
    ∷ codes "authorization"
    ∷ codes "cookie"
    ∷ codes "ciphertext"
    ∷ codes "wrappedkey"
    ∷ codes "wrapped_key"
    ∷ []

abbrev without : ℕ → Text → Text
without c = keep_if (λ b. not (b == c))

unfoldable pub sensitive_key : Text → Bool
sensitive_key key =
    let normalized = lower (without b'_' (without b'-' key)) in
    any_of (λ fragment. is_within (without b'_' fragment) normalized) sensitive_fragments

abbrev pub redacted : Value
redacted = plain (codes "[redacted]")

unfoldable mutual
  pub sanitize_value : Value → ℕ → Value
  sanitize_value null depth = null
  sanitize_value nil_pointer depth = if ltb 12 depth then plain (codes "[maximum depth]") else null
  sanitize_value other_map depth =
      if ltb 12 depth then plain (codes "[maximum depth]") else plain (codes "[unsupported map]")
  sanitize_value (plain t) depth = if ltb 12 depth then plain (codes "[maximum depth]") else plain t
  sanitize_value (binary n) depth =
      if ltb 12 depth
      then plain (codes "[maximum depth]")
      else plain (codes "[binary:" ++ (itoa n ++ codes " bytes]"))
  sanitize_value (keyed members) depth =
      let inner = sanitize_members members (depth + 1) in
      if ltb 12 depth then plain (codes "[maximum depth]") else keyed inner
  sanitize_value (structure fields) depth =
      if ltb 12 depth then plain (codes "[maximum depth]") else structure fields
  sanitize_value (list items) depth =
      let inner = sanitize_items items (depth + 1) in
      if ltb 12 depth then plain (codes "[maximum depth]") else list inner
  sanitize_value (pointer v) depth =
      let inner = sanitize_value v (depth + 1) in
      if ltb 12 depth then plain (codes "[maximum depth]") else inner

  sanitize_items : Items → ℕ → Items
  sanitize_items nil depth = nil
  sanitize_items (item v items) depth = item (sanitize_value v depth) (sanitize_items items depth)

  pub sanitize_members : Members → ℕ → Members
  sanitize_members end depth = end
  sanitize_members (member key v members) depth =
      let inner = sanitize_value v depth in
      member key (if sensitive_key key then redacted else inner) (sanitize_members members depth)

-- SanitizeDetails; nil details and empty ones are the same here.
unfoldable pub sanitize_details : Members → Members
sanitize_details input = sanitize_members input 0
