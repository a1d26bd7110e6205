-- ===== src/Access.antt =====
-- services/control-plane/internal/auth/auth.go: roles and their grants, and the sessions. SHA-256,
-- the clock and the random bytes are arguments; the lock makes each method one step.
pub mod Grants
pub mod Sessions
pub mod Revocation
mod Tests
use vps_manager.Base.{
  ℕ, ◌+◌, ◌*◌, Bool, true, false, not, ◌&&◌, ◌||◌, Option, none, some, List, [], ◌∷◌, ◌++◌, pos,
  ltb_ℤ, leb_ℤ, Time, Duration, add_time, hour, Text, Table, codes, lookup, insert, delete, length,
  ltb, leb, ◌==◌, text_eq, has_prefix, trim_space, drop, any_of, contains, if◌then◌else◌, Result,
  ok, err,
}
use vps_manager.Encoding.Base64
use Grants.{Role, Permission, valid_role, allowed}

pub record Principal : Type 0 where
  pub subject : Text
  pub role : Role
  pub all_hosts : Bool
  pub host_ids : List Text
  pub session_id : Text

pub record Session : Type 0 where
  pub principal : Principal
  pub expires_at : Time

pub record StoredSession : Type 0 where
  pub session : Session
  pub open session use *
  pub token_hash : Text
  pub revoked : Bool

-- Sessions by the digest of their token.
abbrev pub Sessions : Type 0
Sessions = Table StoredSession

pub data Error : Type 0 where
  subject_or_role_invalid ttl_invalid random_failed : Error

-- The values without white space at their ends, each once, blank ones left out.
unfoldable pub deduplicate_from : List Text → List Text → List Text
deduplicate_from seen [] = []
deduplicate_from seen (v ∷ values) =
    let value = trim_space v in
    let skipped = deduplicate_from seen values in
    let rest = deduplicate_from (value ∷ seen) values in
    if length value == 0 || contains seen value then skipped else value ∷ rest

pub deduplicate : List Text → List Text
unfolding deduplicate_from
deduplicate = deduplicate_from []

abbrev pub bearer : Text
bearer = codes "Bearer "

-- The token of an `Authorization` header that begins with `Bearer `.
pub bearer_token : Text → Text
bearer_token authorization = trim_space (drop 7 authorization)

-- The session that is issued: its id is new, and its hosts stand once each.
pub new_session : Principal → Duration → Time → Text → Session
unfolding deduplicate
new_session p ttl now id = record {
  principal = record p {
    session_id = codes "session_" ++ Base64.encode id;
    host_ids = deduplicate p.host_ids;
  };
  expires_at = add_time now ttl;
}

module _ (sha256 : Text → Text) where
  -- `token_raw` and `id_raw` are the two draws of random bytes.
  pub issue :
      Sessions
      → Principal
      → Duration
      → Time
      → Option Text
      → Option Text
      → Sessions × Result Error (Text × Session)
  unfolding new_session
  issue s p ttl now token_raw id_raw =
      if length (trim_space p.subject) == 0 || not (valid_role p.role)
      then (s, err subject_or_role_invalid)
      else if leb_ℤ ttl (pos 0) || ltb_ℤ (pos (8 * hour)) ttl
      then (s, err ttl_invalid)
      else elim token_raw [
        | none ↦ (s, err random_failed)
        | some raw ↦ elim id_raw [
          | none ↦ (s, err random_failed)
          | some id ↦ (
            insert (sha256 (Base64.encode raw))
                (record {
                  session = new_session p ttl now id;
                  token_hash = sha256 (Base64.encode raw);
                  revoked = false;
                })
                s,
            ok (Base64.encode raw, new_session p ttl now id),
          )
        ]
      ]

  -- What the stored session under a hash answers.
  abbrev pub admit : Sessions → Text → Time → Option StoredSession → Sessions × Option Principal
  admit s hash now none = (s, none)
  admit s hash now (some stored) =
      if stored.revoked || not (text_eq hash stored.token_hash)
      then (s, none)
      else if not (ltb now stored.expires_at)
      then (delete hash s, none)
      else (s, some stored.principal)

  pub authenticate : Sessions → Text → Time → Sessions × Option Principal
  unfolding bearer_token
  authenticate s authorization now =
      if not (has_prefix authorization bearer)
      then (s, none)
      else if length (bearer_token authorization) == 0
      then (s, none)
      else admit s (sha256 (bearer_token authorization)) now
          (lookup (sha256 (bearer_token authorization)) s)

  abbrev pub revoke_stored : Sessions → Text → Option StoredSession → Sessions × Bool
  revoke_stored s hash none = (s, false)
  revoke_stored s hash (some stored) = (insert hash (record stored { revoked = true }) s, true)

  pub revoke : Sessions → Text → Sessions × Bool
  unfolding bearer_token
  revoke s authorization =
      if not (has_prefix authorization bearer)
      then (s, false)
      else revoke_stored s (sha256 (bearer_token authorization))
          (lookup (sha256 (bearer_token authorization)) s)

pub can_access_host : Principal → Text → Bool
can_access_host p host_id =
    p.all_hosts
    || any_of (λ allowed_id. text_eq allowed_id host_id && length allowed_id == length host_id)
        p.host_ids

-- The first session of the id that is neither revoked nor expired; a map has no order, and the model
-- goes by its own.
pub authorize_session : Sessions → Text → Permission → Text → Time → Option Principal × Bool
unfolding can_access_host
authorize_session [] session_id permission host_id now = (none, false)
authorize_session ((hash, stored) ∷ s) session_id permission host_id now =
    if not (text_eq stored.principal.session_id session_id)
      || stored.revoked
      || not (ltb now stored.expires_at)
    then authorize_session s session_id permission host_id now
    else (
      some stored.principal,
      allowed stored.principal.role permission && can_access_host stored.principal host_id,
    )

-- SecureTokenEqual
pub secure_token_equal : Text → Text → Bool
secure_token_equal got want =
    if ltb (length got) 32 || ltb (length want) 32 || not (length got == length want)
    then false
    else text_eq got want
