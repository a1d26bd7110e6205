-- ===== src/StepUp/Tests.antt =====
-- Runs of the step-up manager, and its theorems at concrete inputs.
use vps_manager.Base.{
  ◌+◌, ◌*◌, ◌≡◌, ◌<◌, refl, true, false, ◌&&◌, some, [], ◌∷◌, arith, pos, second, Time, Text, codes,
  lookup, keep, ltb, text_eq, ok, ◌++◌, IsMap, trim_space,
}
use vps_manager.Encoding.Base64
use vps_manager.StepUp.Validation.{valid_binding}
use vps_manager.StepUp.{
  Manager, Ticket, IssueRequest, FactorVerifier, request_binding, issue, consume, digest_binding,
  new_entry,
}
use vps_manager.StepUp.Ambiguity.{shifted, redeemed_by_another}
use vps_manager.StepUp.Histories.{revokes, run, IsValid, consume-issue, consume_once}

-- A hash without collisions.
abbrev plain : Text → Text
plain t = t

abbrev hex64 : Text
hex64 = codes "00112233445566778899aabbccddeeff00112233445566778899aabbccddeeff"

abbrev request : IssueRequest
request = record {
  subject = codes "alice";
  session_id = codes "session_1";
  action = codes "host_reboot";
  target_id = codes "host_1";
  parameters_sha256 = hex64;
  reason = codes "kernel update";
  assertion = codes "0123456789abcdef";
  ttl = pos 0;
}

abbrev verifier : FactorVerifier
verifier subject session_id assertion = some (record {
  subject = subject;
  session_id = session_id;
  verified_at = 100 * second;
  assurance_level = pos 2;
  methods = codes "webauthn" ∷ [];
})

abbrev raw32 : Text
raw32 = codes "abcdefghijklmnopqrstuvwxyz012345"

abbrev fresh : Manager
fresh = record { capacity = 2; tickets = [] }

abbrev now : Time
now = 110 * second

abbrev ticket : Ticket
ticket = record { value = Base64.encode raw32; expires_at = 230 * second }

issued : (issue plain verifier fresh request now (some raw32)).1 ≡ ok ticket
unfolding issue new_entry valid_binding trim_space text_eq lookup keep
issued = refl

valid : valid_binding (request_binding request) ≡ ok tt
unfolding valid_binding trim_space text_eq
valid = refl

consume-issue_example :
    (consume plain
      (issue plain verifier fresh request now (some raw32)).0
      ticket.value
      (request_binding request)
      (200 * second)).1
    ≡ (ltb (200 * second) ticket.expires_at
        && text_eq
            (digest_binding plain (request_binding request))
            (digest_binding plain (request_binding request)))
consume-issue_example =
    consume-issue plain verifier fresh request now raw32 ticket (request_binding request)
      (200 * second) tt (omega arith) refl issued valid

consume_once_example :
    (consume plain
      (run plain verifier
        (consume plain fresh (Base64.encode raw32) (request_binding request) now).0
        (revokes (codes "session_9") ∷ []))
      (Base64.encode raw32)
      (request_binding request)
      (now + 1)).1
    ≡ false
consume_once_example =
    consume_once plain verifier fresh raw32 (request_binding request) (request_binding request) now
      (now + 1) (revokes (codes "session_9") ∷ []) (omega arith) refl valid valid (tt, tt)

fresh-IsValid : IsValid 2 fresh
fresh-IsValid = record { same = refl; bounded = omega arith; keys = tt }

abbrev held : Manager
held = record { capacity = 2; tickets = (raw32, new_entry plain request now) ∷ [] }

held-lookup : lookup raw32 held.tickets ≡ some (new_entry plain request now)
unfolding lookup text_eq
held-lookup = refl

held-session : (new_entry plain request now).session_digest ≡ codes "session_1"
unfolding new_entry
held-session = refl

held-IsMap : IsMap held.tickets
unfolding lookup
held-IsMap = (refl, tt)

-- A request of a principal whose name has a zero byte.
abbrev odd_request : IssueRequest
odd_request = record request { subject = codes "alice" ++ 0 ∷ codes "bob" }

odd_issued : (issue plain verifier fresh odd_request now (some raw32)).1 ≡ ok ticket
unfolding issue new_entry valid_binding trim_space text_eq lookup keep
odd_issued = refl

odd_valid : valid_binding (shifted odd_request (codes "alice") (codes "bob")) ≡ ok tt
unfolding valid_binding trim_space text_eq
odd_valid = refl

redeemed_by_another_example :
    ((consume plain
        (issue plain verifier fresh odd_request now (some raw32)).0
        ticket.value
        (shifted odd_request (codes "alice") (codes "bob"))
        (200 * second)).1
      ≡ true)
    × (5 < 9)
redeemed_by_another_example =
    redeemed_by_another plain verifier fresh odd_request now raw32 ticket (codes "alice")
      (codes "bob") (200 * second) tt (omega arith) refl odd_issued refl odd_valid (omega arith)
