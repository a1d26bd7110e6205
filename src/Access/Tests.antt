-- ===== src/Access/Tests.antt =====
-- A session's life, and the theorems at it.
use vps_manager.Base.{
  ◌*◌, ◌≡◌, ◌≢◌, refl, true, false, none, some, [], ◌∷◌, ◌++◌, arith, pos, Text, codes, ok, hour,
  second, text_eq, trim_space,
}
use vps_manager.Encoding.Base64
use vps_manager.Access.Grants.{operator, allowed, jobs_read, valid_role}
use vps_manager.Access.{
  Principal, Sessions, issue, authenticate, revoke, bearer, new_session, authorize_session,
}
use vps_manager.Access.Revocation.{authenticates, revoked_stays, run}

abbrev plain : Text → Text
plain t = t

abbrev alice : Principal
alice = record {
  subject = codes "alice";
  role = operator;
  all_hosts = true;
  host_ids = [];
  session_id = [];
}

abbrev token_bytes : Text
token_bytes = codes "raw-token"

issued :
    (issue plain [] alice (pos hour) second (some token_bytes) (some (codes "id"))).1
    ≡ ok (Base64.encode token_bytes, new_session alice (pos hour) second (codes "id"))
unfolding issue trim_space valid_role
issued = refl

nonempty : ◌≢◌ {A = Text} token_bytes []
nonempty = ground arith

revoked_stays_example :
    (authenticate plain
      (run plain
        (revoke plain
          (issue plain [] alice (pos hour) second (some token_bytes) (some (codes "id"))).0
          (bearer ++ Base64.encode token_bytes)).0
        (authenticates (codes "Bearer x") 7 ∷ []))
      (bearer ++ Base64.encode token_bytes)
      (3 * second)).1
    ≡ none
revoked_stays_example =
    revoked_stays plain
      (issue plain [] alice (pos hour) second (some token_bytes) (some (codes "id"))).0 token_bytes
      (authenticates (codes "Bearer x") 7 ∷ []) (3 * second) nonempty (tt, tt)

abbrev stored : Sessions
stored =
    (
      codes "h",
      record {
        session = record { principal = record alice { session_id = codes "s1" }; expires_at = 9 };
        token_hash = codes "h";
        revoked = false;
      },
    )
    ∷ []

authorized :
    authorize_session stored (codes "s1") jobs_read (codes "host_1") 5
    ≡ (some (record alice { session_id = codes "s1" }), true)
unfolding authorize_session allowed text_eq
authorized = refl
