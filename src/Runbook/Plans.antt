-- ===== src/Runbook/Plans.antt =====
-- services/runbook/catalog.go: the plans that `Build` gives.
use vps_manager.Base.{
  ℕ, ◌+◌, ◌*◌, second, ℤ, ◌≡◌, ◌≤◌, refl, ◌∙◌, inl, inr, Bool, true, false, some, List, [], ◌∷◌,
  map, arith, Duration, Text, length, all_of, pos_part, eq_ℤ, eq_ℤ→eq, lookup, text_eq,
  text_eq_refl, Found, Found-All, All, lookup-Found, Bool-cases, Option-cases, if◌then◌else◌,
  Result, Result-cases, ok, err, ◌==◌,
}
use vps_manager.Encoding.Join.{Lacks}
use vps_manager.Runbook.{
  Parameters, Definition, Step, Plan, PlanError, Phase, preflight, evidence, apply, verify,
  seal_step, is_reviewed_catalog_step,
}
use vps_manager.Runbook.Catalog.{
  build, build_steps, sealed_plan, definitions, seal_one, service_status_plan, service_restart_plan,
  timezone_plan, sigterm_plan, when_none, no_parameters, only_service, only_timezone, not_a_process,
}
use vps_manager.Runbook.Commands.{
  read_only_steps, mutating_steps, timezone_steps, process_steps, reboot_steps,
  service_status_commands, service_restart_commands, timezone_commands,
}

abbrev pub phases : List Step → List Phase
phases = map (λ s. s.phase)

abbrev pub phases_of : Bool → List Phase
phases_of mutating =
    if mutating then preflight ∷ evidence ∷ apply ∷ verify ∷ [] else preflight ∷ evidence ∷ []

-- What the steps may take in all.
abbrev pub timeouts : List Step → ℕ
timeouts [] = 0
timeouts (s ∷ steps) = pos_part s.timeout + timeouts steps

-- The names of the catalog are of one line.
status_names : All (λ e. Lacks 10 e.0) service_status_commands
unfolding service_status_commands
status_names = omega arith

restart_names : All (λ e. Lacks 10 e.0) service_restart_commands
unfolding service_restart_commands
restart_names = omega arith

timezone_names : All (λ e. Lacks 10 e.0) timezone_commands
unfolding timezone_commands
timezone_names = omega arith

empty-Lacks : (s : Text) → (length s == 0) ≡ true → Lacks 10 s
empty-Lacks [] h = tt
empty-Lacks (c ∷ s) h = absurd (ground arith)

-- What is known of steps that are built: their phases, and that the names given are of one line.
abbrev IsPlanned : Bool → Parameters → Result PlanError (List Step) → Type 0
IsPlanned m p (ok steps) =
    (phases steps ≡ phases_of m)
    × Lacks 10 p.service
    × Lacks 10 p.timezone
    × (timeouts steps ≤ 70 * second)
IsPlanned m p (err e) = Unit

when_none-IsPlanned :
    (m : Bool) (p : Parameters) (steps : List Step)
    → phases steps ≡ phases_of m
    → timeouts steps ≤ 70 * second
    → IsPlanned m p (when_none p steps)
when_none-IsPlanned m p steps h t = elim (Bool-cases (no_parameters p)) [
  | inl e ↦ rw e (h, empty-Lacks p.service (ground arith), empty-Lacks p.timezone (ground arith), t)
  | inr e ↦ rw e tt
]

service_status_plan-IsPlanned : (p : Parameters) → IsPlanned false p (service_status_plan p)
unfolding service_status_plan read_only_steps
service_status_plan-IsPlanned p = elim (Option-cases (lookup p.service service_status_commands)) [
  | inl e ↦ rw (e, service_status_plan) tt
  | inr (c, e) ↦
      rw (e, service_status_plan)
        (elim (Bool-cases (only_service p)) [
          | inl f ↦ rw f (
            refl,
            Found-All (λ k _. Lacks 10 k) p.service c service_status_commands status_names
                (lookup-Found p.service c service_status_commands e),
            empty-Lacks p.timezone (ground arith),
            omega arith,
          )
          | inr f ↦ rw f tt
        ])
]

service_restart_plan-IsPlanned : (p : Parameters) → IsPlanned true p (service_restart_plan p)
unfolding service_restart_plan mutating_steps
service_restart_plan-IsPlanned p = elim (Option-cases (lookup p.service service_restart_commands)) [
  | inl e ↦ rw (e, service_restart_plan) tt
  | inr (c, e) ↦
      rw (e, service_restart_plan)
        (elim (Bool-cases (only_service p)) [
          | inl f ↦ rw f (
            refl,
            Found-All (λ k _. Lacks 10 k) p.service c service_restart_commands restart_names
                (lookup-Found p.service c service_restart_commands e),
            empty-Lacks p.timezone (ground arith),
            omega arith,
          )
          | inr f ↦ rw f tt
        ])
]

timezone_plan-IsPlanned : (p : Parameters) → IsPlanned true p (timezone_plan p)
unfolding timezone_plan timezone_steps
timezone_plan-IsPlanned p = elim (Option-cases (lookup p.timezone timezone_commands)) [
  | inl e ↦ rw (e, timezone_plan) tt
  | inr (c, e) ↦
      rw (e, timezone_plan)
        (elim (Bool-cases (only_timezone p)) [
          | inl f ↦ rw f (
            refl,
            empty-Lacks p.service (ground arith),
            Found-All (λ k _. Lacks 10 k) p.timezone c timezone_commands timezone_names
                (lookup-Found p.timezone c timezone_commands e),
            omega arith,
          )
          | inr f ↦ rw f tt
        ])
]

sigterm_plan-IsPlanned : (p : Parameters) → IsPlanned true p (sigterm_plan p)
unfolding sigterm_plan process_steps
sigterm_plan-IsPlanned p = elim (Bool-cases (not_a_process p)) [
  | inl f ↦ rw f tt
  | inr f ↦ rw f (
    refl,
    empty-Lacks p.service (ground arith),
    empty-Lacks p.timezone (ground arith),
    omega arith,
  )
]

build_steps-IsPlanned :
    (action : Text) (d : Definition) (p : Parameters)
    → Found action d definitions
    → IsPlanned d.mutating p (build_steps action p)
unfolding build_steps text_eq definitions read_only_steps reboot_steps
build_steps-IsPlanned action d p (inl (e, f)) =
    rw (← e, ← f) (when_none-IsPlanned false p _ refl (omega arith))
build_steps-IsPlanned action d p (inr (inl (e, f))) =
    rw (← e, ← f) (when_none-IsPlanned false p _ refl (omega arith))
build_steps-IsPlanned action d p (inr (inr (inl (e, f)))) =
    rw (← e, ← f) (service_status_plan-IsPlanned p)
build_steps-IsPlanned action d p (inr (inr (inr (inl (e, f))))) =
    rw (← e, ← f) (service_restart_plan-IsPlanned p)
build_steps-IsPlanned action d p (inr (inr (inr (inr (inl (e, f)))))) =
    rw (← e, ← f) (timezone_plan-IsPlanned p)
build_steps-IsPlanned action d p (inr (inr (inr (inr (inr (inl (e, f))))))) =
    rw (← e, ← f) (sigterm_plan-IsPlanned p)
build_steps-IsPlanned action d p (inr (inr (inr (inr (inr (inr (inl (e, f)))))))) =
    rw (← e, ← f) (when_none-IsPlanned true p _ refl (omega arith))
build_steps-IsPlanned action d p (inr (inr (inr (inr (inr (inr (inr h))))))) = absurd h

pub phases-ne-nil : (m : Bool) (ss : List Step) → phases ss ≡ phases_of m → (length ss == 0) ≡ false
phases-ne-nil true [] h = cc
phases-ne-nil false [] h = cc
phases-ne-nil m (s ∷ ss) h = ground arith

module _ (sha256 : Text → Text) (duration_text : Duration → Text) where
  all_reviewed :
      (steps : List Step)
      → all_of
          (is_reviewed_catalog_step sha256 duration_text)
          (map (seal_one sha256 duration_text) steps)
        ≡ true
  unfolding is_reviewed_catalog_step seal_step
  all_reviewed [] = refl
  all_reviewed (s ∷ steps) =
      ground (arith, all_reviewed steps, text_eq_refl (seal_step sha256 duration_text s))

  phases-seal :
      (steps : List Step) → phases (map (seal_one sha256 duration_text) steps) ≡ phases steps
  phases-seal [] = refl
  phases-seal (s ∷ steps) = ground (arith, phases-seal steps)

  timeouts-seal :
      (steps : List Step) → timeouts (map (seal_one sha256 duration_text) steps) ≡ timeouts steps
  timeouts-seal [] = refl
  timeouts-seal (s ∷ steps) = omega (arith, timeouts-seal steps)

  abbrev IsBuilt : Text → ℤ → Parameters → Plan → Type 0
  IsBuilt action version p plan =
      (lookup action definitions ≡ some plan.definition)
      × (plan.parameters ≡ p)
      × (all_of (is_reviewed_catalog_step sha256 duration_text) plan.steps ≡ true)
      × (phases plan.steps ≡ phases_of plan.definition.mutating)
      × Lacks 10 p.service
      × Lacks 10 p.timezone
      × (version ≡ plan.definition.version)
      × (timeouts plan.steps ≤ 70 * second)

  sealed-IsBuilt :
      (action : Text) (version : ℤ) (p : Parameters) (d : Definition) (steps : List Step)
      (plan : Plan)
      → lookup action definitions ≡ some d
      → (phases steps ≡ phases_of d.mutating)
        × Lacks 10 p.service
        × Lacks 10 p.timezone
        × (timeouts steps ≤ 70 * second)
      → version ≡ d.version
      → sealed_plan sha256 duration_text d p steps ≡ plan
      → IsBuilt action version p plan
  sealed-IsBuilt action version p d steps plan found have v e = rw (← e) (
    found,
    refl,
    all_reviewed steps,
    phases-seal steps ∙ have.0,
    have.1,
    have.2,
    v,
    rw (timeouts-seal steps) have.3,
  )

  -- A plan that is built is that of the action's definition in the catalog, in its version and with the
  -- parameters as given; every step of it is sealed; and its phases are preflight and evidence, and after them apply
  -- and verify exactly if the action changes the host. The names among the parameters are of one line,
  -- and the steps take 70 seconds at most.
  pub build_lem :
      (action : Text) (version : ℤ) (p : Parameters) (plan : Plan)
      → build sha256 duration_text action version p ≡ ok plan
      → (lookup action definitions ≡ some plan.definition)
        × (plan.parameters ≡ p)
        × (all_of (is_reviewed_catalog_step sha256 duration_text) plan.steps ≡ true)
        × (phases plan.steps ≡ phases_of plan.definition.mutating)
        × Lacks 10 p.service
        × Lacks 10 p.timezone
        × (version ≡ plan.definition.version)
        × (timeouts plan.steps ≤ 70 * second)
  unfolding build
  build_lem action version p plan h = elim (Option-cases (lookup action definitions)) [
    | inl e ↦ absurd (ground (arith, e, h))
    | inr (d, e) ↦ elim (Result-cases (build_steps action p)) [
      | inr (x, f) ↦ absurd (ground (arith, e, f, h))
      | inl (steps, f) ↦
          let have : IsPlanned d.mutating p (ok steps) =
            rw f at (build_steps-IsPlanned action d p (lookup-Found action d definitions e)) in
          elim (Bool-cases (eq_ℤ version d.version)) [
            | inl same ↦
                sealed-IsBuilt action version p d steps plan e have (eq_ℤ→eq version d.version same)
                  (ground (arith, e, f, h, same))
            | inr other ↦ absurd (ground (arith, e, f, h, other))
          ]
    ]
  ]
