-- ===== src/Coordinator/Validation.antt =====
-- The checks that the coordinators make of their arguments, and the check of identifiers, which
-- types.go shares (`identifierPattern`).
use vps_manager.Base.{
  ℕ, ◌*◌, Bool, false, not, ◌&&◌, ◌||◌, [], ◌∷◌, pos, ltb_ℤ, Duration, second, hour, Text, length,
  ltb, leb, ◌==◌, trim_space, any_of, all_of, Check, ◌>>◌, reject_if,
}

pub data Error : Type 0 where
  reference_invalid ttl_invalid identifier_invalid random_failed lease_held lease_lost : Error

abbrev pub max_coordinator_reference_bytes : ℕ
max_coordinator_reference_bytes = 512

abbrev is_break : ℕ → Bool
is_break c = c == 13 || c == 10 || c == 0

unfoldable pub valid_reference : Text → Check Error
valid_reference value =
    reject_if
      (length (trim_space value) == 0
        || ltb max_coordinator_reference_bytes (length value)
        || any_of is_break value)
      reference_invalid

unfoldable pub valid_input : Text → Text → Duration → Check Error
unfolding valid_reference
valid_input first second_text ttl = do
  valid_reference first
  valid_reference second_text
  reject_if (ltb_ℤ ttl (pos second) || ltb_ℤ (pos (24 * hour)) ttl) ttl_invalid

abbrev is_alnum : ℕ → Bool
is_alnum c = leb b'A' c && leb c b'Z' || leb b'a' c && leb c b'z' || leb b'0' c && leb c b'9'

abbrev is_mark : ℕ → Bool
is_mark c = c == b'_' || c == b'.' || c == b':' || c == b'-'

-- ^[A-Za-z0-9][A-Za-z0-9_.:-]{0,127}$
unfoldable pub matches_identifier : Text → Bool
matches_identifier [] = false
matches_identifier (c ∷ s) =
    is_alnum c && all_of (λ x. is_alnum x || is_mark x) s && leb (length s) 127

unfoldable pub valid_identifier : Text → Check Error
unfolding matches_identifier
valid_identifier value = reject_if (not (matches_identifier value)) identifier_invalid
