-- ===== src/Runbook/Scope.antt =====
-- services/runbook/catalog.go: `ScopeDigest`, the text that an approval is bound to.
use vps_manager.Base.{
  ℤ, ◌≡◌, refl, sym, ◌∙◌, false, Option, some, none, List, [], ◌∷◌, arith, Duration, Text, All,
  length, pos, lookup, Found-All, lookup-Found, if◌then◌else◌, Result, ok, ◌==◌,
}
use mathlib.Core.Path.{subst}
use vps_manager.Encoding.Decimal.{
  itoa, itoa_ℤ, itoa-lack, itoa_ℤ-lack, itoa-injective, itoa_ℤ-injective,
}
use vps_manager.Encoding.Join.{join, Lacks, join_unique}
use vps_manager.Encoding.Hex.{hex}
use vps_manager.Runbook.{Parameters, Definition, Plan, PlanError, catalog_version}
use vps_manager.Runbook.Plans.{build_lem, phases-ne-nil}
use vps_manager.Runbook.Catalog.{build, definitions}

abbrev pub scope_parts : Text → Text → Plan → List Text
scope_parts host_id job_id plan =
    catalog_version
    ∷ plan.definition.id
    ∷ itoa_ℤ plan.definition.version
    ∷ host_id
    ∷ job_id
    ∷ plan.parameters.service
    ∷ plan.parameters.timezone
    ∷ itoa_ℤ plan.parameters.pid
    ∷ itoa plan.parameters.process_start_ticks
    ∷ []

-- The canonical text, or `none` where the plan is not one of the catalog.
unfoldable pub scope_text : Text → Text → Plan → Option Text
unfolding join
scope_text host_id job_id plan = elim (lookup plan.definition.id definitions) [
  | none ↦ none
  | some d ↦
      if length plan.steps == 0
      then none
      else some (join (10 ∷ []) (scope_parts host_id job_id plan))
]

unfoldable pub scope_digest : (Text → Text) → Text → Text → Plan → Option Text
unfolding hex
scope_digest sha256 host_id job_id plan = elim (scope_text host_id job_id plan) [
  | none ↦ none
  | some canonical ↦ some (hex (sha256 canonical))
]

abbrev pub IsEntry : Text → Definition → Type 0
IsEntry k d = (d.id ≡ k) × Lacks 10 k × (d.version ≡ pos 1)

entries : All (λ e. IsEntry e.0 e.1) definitions
unfolding definitions
entries =
    let lack : All (λ e. Lacks 10 e.0) definitions = omega arith in
    (
      (refl, lack.0, refl),
      (
        (refl, lack.1.0, refl),
        (
          (refl, lack.1.1.0, refl),
          (
            (refl, lack.1.1.1.0, refl),
            (
              (refl, lack.1.1.1.1.0, refl),
              ((refl, lack.1.1.1.1.1.0, refl), ((refl, lack.1.1.1.1.1.1.0, refl), tt)),
            ),
          ),
        ),
      ),
    )

pub is_entry :
    (action : Text) (d : Definition) → lookup action definitions ≡ some d → IsEntry action d
is_entry action d h =
    Found-All IsEntry action d definitions entries (lookup-Found action d definitions h)

some_injective : {s t : Text} → some s ≡ some t → s ≡ t
some_injective e = cc

module _ (sha256 : Text → Text) (duration_text : Duration → Text) where
  -- The scope text of a plan that was built.
  pub scope_text-build :
      (host_id job_id action : Text) (version : ℤ) (p : Parameters) (plan : Plan)
      → build sha256 duration_text action version p ≡ ok plan
      → scope_text host_id job_id plan ≡ some (join (10 ∷ []) (scope_parts host_id job_id plan))
  unfolding scope_text
  scope_text-build host_id job_id action version p plan h =
      let made = build_lem sha256 duration_text action version p plan h in
      let same = is_entry action plan.definition made.0 in
      let some_steps : (length plan.steps == 0) ≡ false =
        phases-ne-nil plan.definition.mutating plan.steps made.3 in
      let found : lookup plan.definition.id definitions ≡ some plan.definition =
        subst (λ a. lookup a definitions ≡ some plan.definition) (sym same.0) made.0 in
      rw (found, scope_text) (rw some_steps refl)

  scope_parts-Lacks :
      (host_id job_id action : Text) (version : ℤ) (p : Parameters) (plan : Plan)
      → build sha256 duration_text action version p ≡ ok plan
      → Lacks 10 host_id
      → Lacks 10 job_id
      → All (Lacks 10) (scope_parts host_id job_id plan)
  scope_parts-Lacks host_id job_id action version p plan h lh lj =
      let made = build_lem sha256 duration_text action version p plan h in
      let same = is_entry action plan.definition made.0 in
      let names : Lacks 10 plan.parameters.service × Lacks 10 plan.parameters.timezone =
        (rw made.1 made.4, rw made.1 made.5) in
      let numbers : All (Lacks 10)
          (itoa_ℤ plan.parameters.pid ∷ itoa plan.parameters.process_start_ticks ∷ []) =
        (
          itoa_ℤ-lack 10 plan.parameters.pid (omega arith),
          (itoa-lack 10 plan.parameters.process_start_ticks (omega arith), tt),
        ) in
      (
        omega arith,
        (
          rw same.0 same.1,
          (
            itoa_ℤ-lack 10 plan.definition.version (omega arith),
            (lh, (lj, (names.0, (names.1, numbers)))),
          ),
        ),
      )

  build_cong :
      {action action' : Text} {version version' : ℤ} {p p' : Parameters}
      → action ≡ action'
      → version ≡ version'
      → p ≡ p'
      → build sha256 duration_text action version p ≡ build sha256 duration_text action' version' p'
  build_cong e f g = rw (e, f, g) refl

  ok_injective :
      {plan plan' : Plan} → ◌≡◌ {A = Result PlanError Plan} (ok plan) (ok plan') → plan ≡ plan'
  ok_injective e = ground (arith, e)

  module _ (host_id host_id' job_id job_id' : Text) (lh : Lacks 10 host_id)
      (lh' : Lacks 10 host_id') (lj : Lacks 10 job_id) (lj' : Lacks 10 job_id') where
    abbrev SameScope : Plan → Plan → Type 0
    SameScope plan plan' =
        (host_id ≡ host_id')
        × (job_id ≡ job_id')
        × (plan.definition.id ≡ plan'.definition.id)
        × (plan.parameters ≡ plan'.parameters)

    parts-SameScope :
        (plan plan' : Plan)
        → scope_parts host_id job_id plan ≡ scope_parts host_id' job_id' plan'
        → SameScope plan plan'
    parts-SameScope plan plan' e =
        let pids : plan.parameters.pid ≡ plan'.parameters.pid = itoa_ℤ-injective _ _ (cc) in
        let ticks : plan.parameters.process_start_ticks ≡ plan'.parameters.process_start_ticks =
          itoa-injective _ _ (cc) in
        (cc, cc, cc, ground (arith, e, pids, ticks))

    -- The text that an approval is bound to determines the host, the job and the whole plan: if two
    -- plans that were built have the same scope text, for identifiers of one line, then the hosts
    -- and the jobs are the same, and so are the plans, step for step.
    pub scope_text-injective :
        (action action' : Text) (version version' : ℤ) (p p' : Parameters) (plan plan' : Plan)
        → build sha256 duration_text action version p ≡ ok plan
        → build sha256 duration_text action' version' p' ≡ ok plan'
        → scope_text host_id job_id plan ≡ scope_text host_id' job_id' plan'
        → (host_id ≡ host_id') × (job_id ≡ job_id') × (plan ≡ plan')
    scope_text-injective action action' version version' p p' plan plan' h h' e =
        let text = scope_text-build host_id job_id action version p plan h in
        let text' = scope_text-build host_id' job_id' action' version' p' plan' h' in
        let same : SameScope plan plan' = parts-SameScope plan plan' (
          join_unique 10 _ _ refl (scope_parts-Lacks host_id job_id action version p plan h lh lj)
            (scope_parts-Lacks host_id' job_id' action' version' p' plan' h' lh' lj')
            (some_injective (sym text ∙ e ∙ text'))) in
        let made = build_lem sha256 duration_text action version p plan h in
        let made' = build_lem sha256 duration_text action' version' p' plan' h' in
        let entry = is_entry action plan.definition made.0 in
        let entry' = is_entry action' plan'.definition made'.0 in
        let actions : action ≡ action' = sym entry.0 ∙ same.2 ∙ entry'.0 in
        let versions : version ≡ version' = made.6 ∙ entry.2 ∙ sym (made'.6 ∙ entry'.2) in
        let given : p ≡ p' = sym made.1 ∙ same.3 ∙ made'.1 in
        (same.0, same.1, ok_injective (sym h ∙ build_cong actions versions given ∙ h'))
