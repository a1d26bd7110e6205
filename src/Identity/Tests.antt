-- ===== src/Identity/Tests.antt =====
-- An assertion and its verification at a concrete input.
use vps_manager.Base.{
  ◌+◌, ◌*◌, ◌≡◌, ◌≢◌, refl, Bool, true, false, ◌++◌, Option, some, List, [], ◌∷◌, arith, pos, Time,
  second, Text, codes, lookup, keep, text_eq, trim_space, has_prefix, ok,
}
use vps_manager.Access.{Principal}
use vps_manager.Access.Grants.{operator, valid_role}
use vps_manager.Encoding.Base64
use vps_manager.RequestAuth.Headers.{unix_time}
use vps_manager.Identity.{Claims, Header, Verifier, new_verifier, verify}
use vps_manager.Identity.Once.{Call, run, accepted_once}
use vps_manager.Identity.Validity.{IsValid, IsSigned, verified-IsValid}

abbrev verifier : Verifier
verifier = record {
  issuer = codes "bridge";
  audience = codes "control-plane";
  key_id = codes "k1";
  key = codes "0123456789abcdef0123456789abcdef";
  skew = 5 * second;
  consumed = [];
}

verifier_made :
    new_verifier (record {
      issuer = codes " bridge";
      audience = codes "control-plane";
      key_id = codes "k1";
      public_key = codes "0123456789abcdef0123456789abcdef";
      clock_skew = pos 0;
    })
    ≡ ok verifier
unfolding new_verifier
verifier_made = refl

abbrev claims : Claims
claims = record {
  issuer = codes "bridge";
  audience = codes "control-plane";
  subject = codes "user_1";
  role = operator;
  all_hosts = false;
  host_ids = codes "host_1" ∷ codes "host_2" ∷ [];
  issued_at = pos 1000;
  expires = pos 1030;
  jwt_id = codes "0123456789abcdef";
}

abbrev hash : Text → Text
hash s = s

abbrev verifies : Text → Text → Text → Bool
verifies key message signature = true

abbrev decode_header : Text → Option Header
decode_header s =
    some (record { algorithm = codes "EdDSA"; key_id = codes "k1"; type_name = codes "VPSMGR+JWT" })

abbrev decode_claims : Text → Option Claims
decode_claims s = some claims

abbrev assertion : Text
assertion =
    codes "AAAA.AAAA."
    ++ codes
        "AAAAAAAAAAAAAAAAAAAAAAAAAAAAAAAAAAAAAAAAAAAAAAAAAAAAAAAAAAAAAAAAAAAAAAAAAAAAAAAAAAAAAA"

abbrev at_1010 : Time
at_1010 = (62135596800 + 1010) * second

abbrev principal : Principal
principal = record {
  subject = codes "user_1";
  role = operator;
  all_hosts = false;
  host_ids = codes "host_1" ∷ codes "host_2" ∷ [];
  session_id = [];
}

abbrev after : Verifier
after = (verify hash verifies decode_header decode_claims verifier assertion at_1010 at_1010).0

accepts :
    verify hash verifies decode_header decode_claims verifier assertion at_1010 at_1010
    ≡ (after, ok principal)
unfolding verify text_eq trim_space Base64.decode has_prefix valid_role unix_time lookup keep
accepts = refl

verified-IsValid_example :
    (c : Claims) × IsSigned hash verifies decode_header decode_claims verifier assertion c
    × IsValid verifier c at_1010
    × (codes "user_1" ≡ c.subject)
    × (operator ≡ c.role)
    × (false ≡ c.all_hosts)
    × (principal.host_ids ≡ c.host_ids)
verified-IsValid_example =
    verified-IsValid hash verifies decode_header decode_claims verifier after assertion at_1010
      at_1010 principal accepts

-- Another assertion is verified in between, and the first again 10 seconds later.
abbrev between : List Call
between = record { assertion = codes "x"; now = at_1010; consumed_at = at_1010 + second } ∷ []

accepted_once_example :
    (verify hash verifies decode_header decode_claims
      (run hash verifies decode_header decode_claims after between)
      assertion
      (at_1010 + 10 * second)
      (at_1010 + 10 * second)).1
    ≢ ok principal
accepted_once_example =
    accepted_once hash verifies decode_header decode_claims verifier after assertion at_1010 at_1010
      principal between (at_1010 + 10 * second) (at_1010 + 10 * second) principal accepts
      (omega arith) (omega arith)
