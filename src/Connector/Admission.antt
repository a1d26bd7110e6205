-- ===== src/Connector/Admission.antt =====
-- services/connector/service/runbook_handler.go: what an execution that is started has passed.
use vps_manager.Base.{
  eq_ℤ→eq, ◌+◌, ◌*◌, ◌<◌, ◌≤◌, ◌≡◌, refl, ◌⊎◌, inl, inr, false, not, ◌&&◌, Option, some, none, List,
  [], ◌∷◌, arith, Duration, Time, Text, codes, minute, second, hour, text_eq_iff, Bool-cases,
  Option-cases, Result-cases, ok, All,
}
use mathlib.Core.Path.{subst}
use vps_manager.Ledger.{
  claim_new, claim_replay, claim_conflict, claim_in_progress, claim_full, RunbookClaim,
}
use vps_manager.Runbook.{Execution, Definition, Step, StepResult, preflight, evidence}
use vps_manager.Runbook.Plans.{phases_of}
use vps_manager.Runbook.Runs.{Tried, execute-Tried}
use vps_manager.Runbook.Executor.{Outcome, execute}
use vps_manager.Connector.Bindings.{build_bound_plan}
use vps_manager.Connector.Approval.{
  RunbookExecuteRequest, Ssh, validate_approval, validate_runbook_ssh_material,
  parse_pinned_host_key, parse_credential,
}
use vps_manager.Connector.Responses.{RunbookExecuteResponse}
use vps_manager.Connector.Options.{RunbookHandler}
use vps_manager.Connector.Digests.{IsBound, build_bound_plan-IsBound}
use vps_manager.Connector.Runbooks.{
  Admitted, started, admit, begin_execute, claim_admitted, claim_for, answer_claim,
}

-- The approval is for the binding and its digest, and fresh; the emergency grant is, where the
-- action needs one.
pub record IsApproved (payload : RunbookExecuteRequest) (d : Definition) (digest : Text)
    (now : Time) : Type 0 where
  pub decision : payload.approval.decision ≡ codes "approved"
  pub action_id : payload.approval.action.id ≡ payload.binding.action.id
  pub action_version : payload.approval.action.version ≡ payload.binding.action.version
  pub host : payload.approval.host_id ≡ payload.binding.host_id
  pub job : payload.approval.job_id ≡ payload.binding.job_id
  pub digest_same : payload.approval.scope_digest ≡ digest
  pub not_ahead : payload.approval.approved_at ≤ now + 30 * second
  pub not_old : now ≤ payload.approval.approved_at + 15 * minute
  pub not_over : now < payload.approval.expires_at
  pub not_long : payload.approval.expires_at ≤ payload.approval.approved_at + 15 * minute
  pub emergency_granted :
      (d.emergency ≡ false)
      ⊎ (now < payload.emergency.expires_at) × (payload.emergency.expires_at ≤ now + 4 * hour)

validate_approval-IsApproved :
    (payload : RunbookExecuteRequest) (d : Definition) (digest : Text) (now : Time)
    → validate_approval payload d digest now ≡ ok tt
    → IsApproved payload d digest now
unfolding validate_approval
validate_approval-IsApproved payload d digest now h =
    let a = payload.approval in
    let b = payload.binding in
    record {
      decision = ground (arith, h, text_eq_iff a.decision (codes "approved"));
      action_id = ground (arith, h, text_eq_iff a.action.id b.action.id);
      action_version = eq_ℤ→eq a.action.version b.action.version (ground (arith, h));
      host = ground (arith, h, text_eq_iff a.host_id b.host_id);
      job = ground (arith, h, text_eq_iff a.job_id b.job_id);
      digest_same = ground (arith, h, text_eq_iff a.scope_digest digest);
      not_ahead = ground (arith, h);
      not_old = ground (arith, h);
      not_over = ground (arith, h);
      not_long = ground (arith, h);
      emergency_granted = elim (Bool-cases d.emergency) [
        | inr plain ↦ inl plain
        | inl e ↦ inr (ground (arith, h, e), ground (arith, h, e))
      ];
    }

Tried-read_only :
    (rs : List StepResult)
    → Tried (phases_of false) rs
    → All (λ r. (r.phase ≡ preflight) ⊎ (r.phase ≡ evidence)) rs
Tried-read_only [] h = tt
Tried-read_only (r ∷ []) h = (inl h, tt)
Tried-read_only (r ∷ t ∷ []) h = (inl h.0, (inr h.2, tt))
Tried-read_only (r ∷ t ∷ u ∷ rs) h = absurd h.2.2

material_matches :
    {Key Signer : Type 0} (ssh : Ssh Key Signer) (payload : RunbookExecuteRequest) (key : Key)
    (signer : Signer)
    → validate_runbook_ssh_material ssh payload ≡ ok (key, signer)
    → (ssh.fingerprint_sha256 key ≡ payload.binding.pinned_host_key_sha256)
      × (ssh.fingerprint_sha256 (ssh.public_key signer)
          ≡ payload.binding.credential_public_key_sha256)
unfolding validate_runbook_ssh_material
material_matches ssh payload key signer h =
    let b = payload.binding in
    elim (Option-cases (parse_pinned_host_key ssh payload.pinned_host_key)) [
      | inl bad ↦ absurd (ground (arith, h, bad))
      | inr (k, ek) ↦ elim (Option-cases (parse_credential ssh payload.credential)) [
        | inl bad ↦ absurd (ground (arith, h, ek, bad))
        | inr (s, es) ↦ (
          ground
              (arith, h, ek, es, text_eq_iff (ssh.fingerprint_sha256 k) b.pinned_host_key_sha256),
          ground (
            arith,
            h,
            ek,
            es,
            text_eq_iff (ssh.fingerprint_sha256 (ssh.public_key s)) b.credential_public_key_sha256,
          ),
        )
      ]
    ]

module _ (sha256 : Text → Text) (duration_text : Duration → Text) {Key Signer : Type 0}
    (ssh : Ssh Key Signer) (decode : Text → Option RunbookExecuteRequest) where
  pub record IsAdmitted (h : RunbookHandler) (body : Text) (now : Time) (a : Admitted Key Signer)
      : Type 0 where
    pub decoded : decode body ≡ some a.payload
    pub bound :
        build_bound_plan sha256 duration_text a.payload.protocol_version a.payload.binding
        ≡ ok (a.plan, a.digest)
    pub allowed : (a.plan.definition.mutating && not h.mutations_enabled) ≡ false
    pub approved : IsApproved a.payload a.plan.definition a.digest now
    pub material : validate_runbook_ssh_material ssh a.payload ≡ ok (a.key, a.signer)

  admit-IsAdmitted :
      (h : RunbookHandler) (body : Text) (now : Time) (a : Admitted Key Signer)
      → admit sha256 duration_text ssh decode h body now ≡ ok a
      → IsAdmitted h body now a
  unfolding admit
  admit-IsAdmitted h body now a e = elim (Option-cases (decode body)) [
    | inl bad ↦ absurd (ground (arith, e, bad))
    | inr (p, ep) ↦
        elim (Result-cases (build_bound_plan sha256 duration_text p.protocol_version p.binding)) [
          | inr (x, bad) ↦ absurd (ground (arith, e, ep, bad))
          | inl (b, eb) ↦ elim (Bool-cases (b.0.definition.mutating && not h.mutations_enabled)) [
            | inl bad ↦ absurd (ground (arith, e, ep, eb, bad))
            | inr en ↦ elim (Result-cases (validate_approval p b.0.definition b.1 now)) [
              | inr (x, bad) ↦ absurd (ground (arith, e, ep, eb, en, bad))
              | inl (u, ea) ↦ elim (Result-cases (validate_runbook_ssh_material ssh p)) [
                | inr (x, bad) ↦ absurd (ground (arith, e, ep, eb, en, ea, bad))
                | inl (m, em) ↦
                    let made : Admitted Key Signer = record {
                      payload = p;
                      plan = b.0;
                      digest = b.1;
                      key = m.0;
                      signer = m.1;
                    } in
                    let same : made ≡ a = ground (arith, e, ep, eb, en, ea, em) in
                    rw (← same) (record {
                      decoded = ep;
                      bound = eb;
                      allowed = en;
                      approved =
                          validate_approval-IsApproved p b.0.definition b.1 now
                            (ground (arith, ea));
                      material = em;
                    })
              ]
            ]
          ]
        ]
  ]

  -- The claim is made, and the request goes on.
  pub record IsStarted (h h' : RunbookHandler) (body : Text) (now : Time) (a : Admitted Key Signer)
      : Type 0 where
    pub admitted : IsAdmitted h body now a
    pub new : (claim_for sha256 duration_text ssh h a now).1.0 ≡ claim_new
    pub room : h.running < h.max_concurrent
    pub after : h' ≡ record h {
      ledger = (claim_for sha256 duration_text ssh h a now).0;
      running = h.running + 1;
    }

  answer_claim-new :
      (c : RunbookClaim × RunbookExecuteResponse) (request_id : Text)
      → answer_claim sha256 duration_text ssh c request_id ≡ none
      → c.0 ≡ claim_new
  answer_claim-new (claim_new, r) request_id h = refl
  answer_claim-new (claim_replay, r) request_id h = cc
  answer_claim-new (claim_conflict, r) request_id h = cc
  answer_claim-new (claim_in_progress, r) request_id h = cc
  answer_claim-new (claim_full, r) request_id h = cc

  pub begin_execute-IsStarted :
      (h h' : RunbookHandler) (body : Text) (now : Time) (request_id : Text)
      (a : Admitted Key Signer)
      → begin_execute sha256 duration_text ssh decode h body now request_id ≡ (h', started a)
      → IsStarted h h' body now a
  unfolding begin_execute claim_admitted
  begin_execute-IsStarted h h' body now request_id a e =
      elim (Result-cases (admit sha256 duration_text ssh decode h body now)) [
        | inr (x, bad) ↦ absurd (ground (arith, e, bad))
        | inl (b, good) ↦
            elim (Option-cases (
              answer_claim sha256 duration_text ssh (claim_for sha256 duration_text ssh h b now).1
                request_id)) [
                  | inr (x, bad) ↦ absurd (ground (arith, e, good, bad))
                  | inl new ↦
                      let same : b ≡ a = ground (arith, e, good, new) in
                      rw (← same) (record {
                        admitted = admit-IsAdmitted h body now b good;
                        new =
                            answer_claim-new (claim_for sha256 duration_text ssh h b now).1
                              request_id new;
                        room = ground (arith, e);
                        after = ground (arith, e, good, new);
                      })
                ]
      ]

  -- What is executed was approved. It is the plan of the request's own binding, which is what the body
  -- was decoded to; the approval is fresh, is for that binding, and names the digest that the connector
  -- itself computes of the plan and the binding; an emergency grant runs where the action needs one; and
  -- the keys that are used are those of the binding.
  pub started-IsApproved :
      (h h' : RunbookHandler) (body : Text) (now : Time) (request_id : Text)
      (a : Admitted Key Signer)
      → begin_execute sha256 duration_text ssh decode h body now request_id ≡ (h', started a)
      → (decode body ≡ some a.payload)
        × IsBound sha256 duration_text a.payload.binding a.plan a.digest
        × IsApproved a.payload a.plan.definition a.digest now
        × (ssh.fingerprint_sha256 a.key ≡ a.payload.binding.pinned_host_key_sha256)
        × (ssh.fingerprint_sha256 (ssh.public_key a.signer)
            ≡ a.payload.binding.credential_public_key_sha256)
  started-IsApproved h h' body now request_id a e =
      let v = (begin_execute-IsStarted h h' body now request_id a e).admitted in
      let keys = material_matches ssh a.payload a.key a.signer v.material in
      let bound =
        build_bound_plan-IsBound sha256 duration_text a.payload.protocol_version a.payload.binding
          a.plan a.digest v.bound in
      (v.decoded, bound, v.approved, keys.0, keys.1)

  -- A connector whose mutations are disabled changes no host: whatever it starts, no step that is
  -- tried is one that applies or verifies a change.
  pub disabled_is_read_only :
      {S : Type 0} (runner : S → Step → S × Outcome) (s t : S) (h h' : RunbookHandler) (body : Text)
      (now : Time) (request_id : Text) (a : Admitted Key Signer) (e : Execution)
      → h.mutations_enabled ≡ false
      → begin_execute sha256 duration_text ssh decode h body now request_id ≡ (h', started a)
      → execute sha256 duration_text (some runner) s a.plan ≡ (t, ok e)
      → All (λ r. (r.phase ≡ preflight) ⊎ (r.phase ≡ evidence)) e.steps
  disabled_is_read_only runner s t h h' body now request_id a e disabled begun done =
      let v = (begin_execute-IsStarted h h' body now request_id a begun).admitted in
      let b = a.payload.binding in
      let bound =
        build_bound_plan-IsBound sha256 duration_text a.payload.protocol_version b a.plan a.digest
          v.bound in
      let tried =
        execute-Tried runner sha256 duration_text s b.action.id b.action.version b.parameters a.plan
          bound.built done in
      let reads : a.plan.definition.mutating ≡ false = ground (arith, v.allowed, disabled) in
      Tried-read_only e.steps (subst (λ m. Tried (phases_of m) e.steps) reads tried)
