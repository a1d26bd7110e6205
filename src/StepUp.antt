-- ===== src/StepUp.antt =====
-- services/control-plane/internal/stepup/manager.go: single-use step-up tickets. The lock makes
-- each method one step, so a method is a function from the state to the state and its result. The
-- factor verifier, SHA-256, the clock and the random bytes are arguments.
pub mod Validation
pub mod Canonical
pub mod Tickets
pub mod Histories
pub mod Ambiguity
mod Tests
use vps_manager.Base.{
  ℕ, ◌+◌, ◌*◌, Bool, true, false, not, ◌&&◌, ◌||◌, Option, none, some, List, [], ◌∷◌, ℤ, pos, ltb_ℤ,
  leb_ℤ, eq_ℤ, pos_part, Time, Duration, add_time, second, minute, Text, Table, lookup, insert,
  delete, keep, length, ltb, leb, ◌==◌, text_eq, if◌then◌else◌, Result, Check, ok, err, ◌>>=◌, ◌>>◌,
  guard, reject_if, or_fail,
}
use vps_manager.Encoding.Base64
use vps_manager.Encoding.Join
use Validation.{Error, Binding, valid_binding}

abbrev pub default_ttl : ℕ
default_ttl = 2 * minute

abbrev pub maximum_ttl : ℕ
maximum_ttl = 5 * minute

abbrev pub maximum_freshness : ℕ
maximum_freshness = 2 * minute

pub record VerifiedFactor : Type 0 where
  pub subject : Text
  pub session_id : Text
  pub verified_at : Time
  pub assurance_level : ℤ
  pub methods : List Text

-- FactorVerifier.Verify: subject, session and assertion to the verified factor, or an error.
abbrev pub FactorVerifier : Type 0
FactorVerifier = Text → Text → Text → Option VerifiedFactor

pub record IssueRequest : Type 0 where
  pub subject : Text
  pub session_id : Text
  pub action : Text
  pub target_id : Text
  pub parameters_sha256 : Text
  pub reason : Text
  pub assertion : Text
  pub ttl : Duration

pub record Ticket : Type 0 where
  pub value : Text
  pub expires_at : Time

pub record Entry : Type 0 where
  pub binding_digest : Text
  pub expires_at : Time
  pub session_digest : Text

pub record Manager : Type 0 where
  pub capacity : ℕ
  pub tickets : Table Entry

-- New; the verifier and the clock are arguments of the methods here.
unfoldable pub new : ℤ → Result Error Manager
new requested =
    let capacity = if eq_ℤ requested (pos 0) then pos 4096 else requested in
    if ltb_ℤ capacity (pos 1) || ltb_ℤ (pos 65536) capacity
    then err Error.capacity_invalid
    else ok (record { capacity = pos_part capacity; tickets = [] })

abbrev pub request_binding : IssueRequest → Binding
request_binding r = record {
  subject = r.subject;
  session_id = r.session_id;
  action = r.action;
  target_id = r.target_id;
  parameters_sha256 = r.parameters_sha256;
  reason = r.reason;
}

-- The fields in order, with a zero byte between two.
unfoldable pub canonical : Binding → Text
canonical b =
    Join.join (0 ∷ [])
      (b.subject ∷ b.session_id ∷ b.action ∷ b.target_id ∷ b.parameters_sha256 ∷ b.reason ∷ [])

unfoldable pub constant_equal : Text → Text → Bool
constant_equal left right = if length left == length right then text_eq left right else false

pub prune : Manager → Time → Manager
prune m now = record m { tickets = keep (λ e. ltb now e.expires_at) m.tickets }

-- The lifetime that the request gets: a zero TTL stands for the default.
pub effective_ttl : IssueRequest → Duration
effective_ttl r = if eq_ℤ r.ttl (pos 0) then pos default_ttl else r.ttl

-- The factor belongs to the request, is strong, and was verified at most two minutes ago.
pub is_strong : IssueRequest → VerifiedFactor → Time → Bool
unfolding constant_equal
is_strong r v now =
    constant_equal v.subject r.subject
    && constant_equal v.session_id r.session_id
    && not (ltb_ℤ v.assurance_level (pos 2))
    && not (length v.methods == 0)
    && not (v.verified_at == 0)
    && not (ltb (now + 15 * second) v.verified_at)
    && not (ltb (v.verified_at + maximum_freshness) now)

-- What Issue checks before it draws random bytes.
pub check_request : FactorVerifier → IssueRequest → Time → Check Error
unfolding effective_ttl is_strong
check_request verify r now = do
  valid_binding (request_binding r)
  reject_if (ltb (length r.assertion) 16 || ltb (16 * 1024) (length r.assertion))
      Error.assertion_invalid
  reject_if (leb_ℤ (effective_ttl r) (pos 0) || ltb_ℤ (pos maximum_ttl) (effective_ttl r))
      Error.lifetime_invalid
  v ← or_fail (verify r.subject r.session_id r.assertion) Error.verification_failed
  guard (is_strong r v now) Error.not_fresh

abbrev pub is_some {ℓ} : {A : Type ℓ} → Option A → Bool
is_some none = false
is_some (some a) = true

abbrev pub is_ok {ℓ κ} : {E : Type ℓ} {A : Type κ} → Result E A → Bool
is_ok (ok a) = true
is_ok (err e) = false

module _ (sha256 : Text → Text) where
  pub digest_binding : Binding → Text
  digest_binding b = sha256 (canonical b)

  pub new_entry : IssueRequest → Time → Entry
  new_entry r now = record {
    binding_digest = digest_binding (request_binding r);
    expires_at = add_time now (effective_ttl r);
    session_digest = sha256 r.session_id;
  }

  -- The part of Issue under the lock.
  pub store_ticket : Manager → IssueRequest → Time → Text → Manager × Result Error Ticket
  unfolding prune new_entry
  store_ticket m r now raw =
      let p = prune m now in
      if leb p.capacity (length p.tickets)
      then (p, err Error.capacity_reached)
      else if is_some (lookup (sha256 raw) p.tickets)
      then (p, err Error.collision)
      else (
        record p { tickets = insert (sha256 raw) (new_entry r now) p.tickets },
        ok (record { value = Base64.encode raw; expires_at = (new_entry r now).expires_at }),
      )

  -- `random` is what `rand.Read` gave, `none` if it failed.
  pub issue :
      FactorVerifier → Manager → IssueRequest → Time → Option Text → Manager × Result Error Ticket
  unfolding check_request store_ticket
  issue verify m r now random = elim (check_request verify r now) [
    | err e ↦ (m, err e)
    | ok _ ↦ elim random [
      | none ↦ (m, err Error.generate_failed)
      | some raw ↦ store_ticket m r now raw
    ]
  ]

  -- The part of Consume under the lock: the ticket goes, whatever the binding.
  pub redeem : Manager → Text → Binding → Time → Manager × Bool
  unfolding prune digest_binding
  redeem m digest b now =
      let p = prune m now in
      elim (lookup digest p.tickets) [
        | none ↦ (p, false)
        | some stored ↦ (
          record p { tickets = delete digest p.tickets },
          ltb now stored.expires_at && text_eq (digest_binding b) stored.binding_digest,
        )
      ]

  pub redeem_raw : Manager → Option Text → Binding → Time → Manager × Bool
  unfolding redeem
  redeem_raw m none b now = (m, false)
  redeem_raw m (some raw) b now =
      if length raw == 32 then redeem m (sha256 raw) b now else (m, false)

  pub consume : Manager → Text → Binding → Time → Manager × Bool
  unfolding redeem_raw
  consume m value b now =
      if ltb (length value) 32 || ltb 128 (length value) || not (is_ok (valid_binding b))
      then (m, false)
      else redeem_raw m (Base64.decode true value) b now

  pub revoke_session : Manager → Text → Manager × ℕ
  revoke_session m session_id =
      let digest = sha256 session_id in
      (
        record m { tickets = keep (λ e. not (text_eq digest e.session_digest)) m.tickets },
        length (keep (λ e. text_eq digest e.session_digest) m.tickets),
      )
