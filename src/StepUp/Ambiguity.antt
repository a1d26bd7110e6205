-- ===== src/StepUp/Ambiguity.antt =====
-- services/control-plane/internal/stepup/manager.go: digestBinding joins the fields with zero bytes, and
-- validateBinding lets zero bytes stand inside a subject and a session id.
use vps_manager.Base.{
  ◌<◌, ◌≡◌, ap, sym, true, some, ◌∷◌, ◌++◌, arith, Time, Text, length, length-append, text_eq_refl,
  ok, IsMap, IsBytes,
}
use vps_manager.StepUp.Validation.{Binding, valid_binding}
use vps_manager.StepUp.{
  Manager, Ticket, IssueRequest, FactorVerifier, request_binding, issue, consume, digest_binding,
}
use vps_manager.StepUp.Canonical.{canonical_ambiguous}
use vps_manager.StepUp.Histories.{consume-issue}

-- What follows the zero byte in the subject, moved to the session id.
abbrev pub shifted : IssueRequest → Text → Text → Binding
shifted r s x = record (request_binding r) { subject = s; session_id = x ++ 0 ∷ r.session_id }

shifted-digest :
    (sha256 : Text → Text) (r : IssueRequest) (s x : Text)
    → r.subject ≡ s ++ 0 ∷ x
    → digest_binding sha256 (shifted r s x) ≡ digest_binding sha256 (request_binding r)
unfolding digest_binding
shifted-digest sha256 r s x e =
    rw e (ap sha256 (sym (canonical_ambiguous (request_binding r) s x r.session_id)))

-- A ticket can be redeemed by another principal: where the subject that a ticket was issued to has a
-- zero byte, the part after it can be moved to the session id, and the ticket is accepted, before it
-- expires, for the binding with the shorter subject and the longer session id, if that is valid too.
pub redeemed_by_another :
    (sha256 : Text → Text) (verify : FactorVerifier) (m : Manager) (r : IssueRequest)
    (issued : Time) (raw : Text) (t : Ticket) (s x : Text) (now : Time)
    → IsMap m.tickets
    → IsBytes raw
    → length raw ≡ 32
    → (issue sha256 verify m r issued (some raw)).1 ≡ ok t
    → r.subject ≡ s ++ 0 ∷ x
    → valid_binding (shifted r s x) ≡ ok tt
    → now < t.expires_at
    → ((consume sha256 (issue sha256 verify m r issued (some raw)).0 t.value (shifted r s x) now).1
        ≡ true)
      × (length s < length r.subject)
redeemed_by_another sha256 verify m r issued raw t s x now keys bytes long made has_nul valid
      early =
    let accepted =
      consume-issue sha256 verify m r issued raw t (shifted r s x) now keys bytes long made valid in
    (
      ground (
        arith,
        accepted,
        early,
        shifted-digest sha256 r s x has_nul,
        text_eq_refl (digest_binding sha256 (request_binding r)),
      ),
      omega (arith, ap length has_nul, length-append s (0 ∷ x)),
    )
