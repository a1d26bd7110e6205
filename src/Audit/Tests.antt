-- ===== src/Audit/Tests.antt =====
-- Details with a token in a nested map.
use vps_manager.Base.{◌≡◌, ◌⊎◌, refl, true, codes, lower, is_within, inl, inr}
use vps_manager.Audit.{
  plain, binary, structure, keyed, Members, end, member, sensitive_key, redacted, sanitize_value,
  sanitize_details,
}
use vps_manager.Audit.Redaction.{Holds, MembersHaveStruct, MembersHold, details_redacted}

abbrev details : Members
details = member (codes "host") (plain (codes "h1")) (
    member (codes "auth") (keyed (member (codes "API-Token") (plain (codes "t0k3n")) end))
      (member (codes "body") (binary 12) end))

token_is_secret : sensitive_key (codes "API-Token") ≡ true
unfolding sensitive_key lower is_within
token_is_secret = refl

held : MembersHold (codes "API-Token") redacted (sanitize_details details)
unfolding Holds sanitize_details sanitize_value sensitive_key lower is_within
held = inr (inr (inr (inl (inl (refl, refl)))))

details_redacted_example :
    (redacted ≡ redacted)
    ⊎ ((fields : Members) × MembersHaveStruct fields details
        × MembersHold (codes "API-Token") redacted fields)
details_redacted_example =
    details_redacted details (codes "API-Token") redacted held token_is_secret

-- A struct is passed on with what stands in it.
abbrev config : Members
config =
    member (codes "config") (structure (member (codes "Password") (plain (codes "hunter2")) end))
      end

struct_kept : sanitize_details config ≡ config
unfolding sanitize_details sanitize_value sensitive_key lower is_within
struct_kept = refl
