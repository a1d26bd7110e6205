-- ===== src/Connector/Digests.antt =====
-- services/connector/service/runbook_handler.go: what the digest of a bound plan determines.
use vps_manager.Base.{
  ℕ, ◌≡◌, ◌≢◌, refl, sym, ap, ◌∙◌, ◌⊎◌, inl, inr, true, ◌||◌, some, [], ◌∷◌, ◌++◌, arith, Duration,
  Text, All, drop, text_eq, text_eq_iff, has_prefix, has_control-Lacks, Bool-cases, Option-cases,
  Result-cases, ok, IsBytes,
}
use vps_manager.Encoding.Decimal.{itoa_ℤ-lack, itoa_ℤ-injective}
use vps_manager.Encoding.Join.{Lacks, Lacks-append, Lacks-parts, all_of-Lacks, join_unique}
use vps_manager.Encoding.Hex.{hex, hex-injective, hex-Lacks}
use vps_manager.Runbook.{Plan}
use vps_manager.Runbook.Catalog.{build}
use vps_manager.Runbook.Plans.{build_lem}
use vps_manager.Runbook.Scope.{is_entry, scope_text, scope_digest, scope_text-injective}
use vps_manager.Connector.Bindings.{
  RunbookBinding, bound_parts, bound_digest, build_bound_plan, valid_identifier,
  identifier_characters, valid_ssh_fingerprint, is_alnum, is_identifier_mark,
  is_fingerprint_character, fingerprint_prefix, validate_bound_target,
}

-- Two texts with the same hash.
abbrev pub Collision : (Text → Text) → Type 0
Collision h = (s : Text) × (t : Text) × (s ≢ t) × (h s ≡ h t)

same_or_Collision : (h : Text → Text) (s t : Text) → h s ≡ h t → (s ≡ t) ⊎ Collision h
same_or_Collision h s t e = elim (Bool-cases (text_eq s t)) [
  | inl same ↦ inl ((text_eq_iff s t).0 same)
  | inr differ ↦ inr (s, t, λ same. ground (arith, text_eq_iff s t), e)
]

identifier_characters-Lacks : (s : Text) → identifier_characters s ≡ true → Lacks 10 s
unfolding identifier_characters
identifier_characters-Lacks [] h = tt
identifier_characters-Lacks (c ∷ s) h = (
  λ e. ground (arith, e, h),
  all_of-Lacks (λ d. is_alnum d || is_identifier_mark d) 10 s refl (ground (arith, h)),
)

valid_identifier-Lacks : (s : Text) (max : ℕ) → valid_identifier s max ≡ true → Lacks 10 s
unfolding valid_identifier
valid_identifier-Lacks s max h = identifier_characters-Lacks s (ground (arith, h))

has_prefix_codes :
    (s : Text) → has_prefix s fingerprint_prefix ≡ true → s ≡ fingerprint_prefix ++ drop 7 s
unfolding has_prefix
has_prefix_codes [] h = cc
has_prefix_codes (a ∷ []) h = absurd (ground arith)
has_prefix_codes (a ∷ b ∷ []) h = absurd (ground arith)
has_prefix_codes (a ∷ b ∷ c ∷ []) h = absurd (ground arith)
has_prefix_codes (a ∷ b ∷ c ∷ d ∷ []) h = absurd (ground arith)
has_prefix_codes (a ∷ b ∷ c ∷ d ∷ e ∷ []) h = absurd (ground arith)
has_prefix_codes (a ∷ b ∷ c ∷ d ∷ e ∷ f ∷ []) h = absurd (ground arith)
has_prefix_codes (a ∷ b ∷ c ∷ d ∷ e ∷ f ∷ g ∷ s) h = ground arith

valid_ssh_fingerprint-Lacks : (s : Text) → valid_ssh_fingerprint s ≡ true → Lacks 10 s
unfolding valid_ssh_fingerprint
valid_ssh_fingerprint-Lacks s h = rw (has_prefix_codes s (ground (arith, h))) (
    Lacks-append 10 fingerprint_prefix (drop 7 s) (omega arith)
      (all_of-Lacks is_fingerprint_character 10 (drop 7 s) refl (ground (arith, h))))

-- What is known of a binding whose target is valid.
OneLineTarget : RunbookBinding → Type 0
OneLineTarget b =
    Lacks 10 b.target.address
    × Lacks 10 b.target.user
    × Lacks 10 b.pinned_host_key_sha256
    × Lacks 10 b.credential_public_key_sha256

validate_bound_target-OneLine :
    (b : RunbookBinding) → validate_bound_target b ≡ ok tt → OneLineTarget b
unfolding OneLineTarget validate_bound_target
validate_bound_target-OneLine b h =
    let texts =
      Lacks-parts 10 b.target.address b.target.user
        (has_control-Lacks (b.target.address ++ b.target.user) (ground (arith, h))) in
    (
      texts.0,
      texts.1,
      valid_ssh_fingerprint-Lacks b.pinned_host_key_sha256 (ground (arith, h)),
      valid_ssh_fingerprint-Lacks b.credential_public_key_sha256 (ground (arith, h)),
    )

module _ (sha256 : Text → Text) (duration_text : Duration → Text) where
  pub record IsBound (b : RunbookBinding) (plan : Plan) (digest : Text) : Type 0 where
    pub host : Lacks 10 b.host_id
    pub job : Lacks 10 b.job_id
    pub target : validate_bound_target b ≡ ok tt
    pub built : build sha256 duration_text b.action.id b.action.version b.parameters ≡ ok plan
    pub scope : Text
    pub scope_same : scope_text b.host_id b.job_id plan ≡ some scope
    pub digest_same : digest ≡ bound_digest sha256 duration_text (hex (sha256 scope)) b

  pub build_bound_plan-IsBound :
      (protocol : Text) (b : RunbookBinding) (plan : Plan) (digest : Text)
      → build_bound_plan sha256 duration_text protocol b ≡ ok (plan, digest)
      → IsBound b plan digest
  unfolding build_bound_plan scope_digest
  build_bound_plan-IsBound protocol b plan digest h =
      elim (Result-cases (validate_bound_target b)) [
        | inr (e, bad) ↦ absurd (ground (arith, h, bad))
        | inl (u, good) ↦
            elim (Result-cases
              (build sha256 duration_text b.action.id b.action.version b.parameters)) [
                | inr (e, bad) ↦ absurd (ground (arith, h, good, bad))
                | inl (made, built) ↦ elim (Option-cases (scope_text b.host_id b.job_id made)) [
                  | inl e ↦ absurd (ground (arith, h, good, built, e))
                  | inr (t, e) ↦
                      let plans : made ≡ plan = ground (arith, h, good, built, e) in
                      record {
                        host = valid_identifier-Lacks b.host_id 128 (ground (arith, h));
                        job = valid_identifier-Lacks b.job_id 128 (ground (arith, h));
                        target = ground (arith, good);
                        built = rw (← plans) built;
                        scope = t;
                        scope_same = rw (← plans) e;
                        digest_same = ground (arith, h, good, built, e);
                      }
                ]
              ]
      ]

  bound_parts-Lacks :
      (b : RunbookBinding) (s : Text) → OneLineTarget b → All (Lacks 10) (bound_parts (hex s) b)
  unfolding OneLineTarget
  bound_parts-Lacks b s v = (
    hex-Lacks 10 s (omega arith),
    (v.0, (itoa_ℤ-lack 10 b.target.port (omega arith), (v.1, (v.2, (v.3, tt))))),
  )

  -- A plan that was built shows the action, its version and its parameters.
  same_action :
      (b b' : RunbookBinding) (plan plan' : Plan)
      → build sha256 duration_text b.action.id b.action.version b.parameters ≡ ok plan
      → build sha256 duration_text b'.action.id b'.action.version b'.parameters ≡ ok plan'
      → plan ≡ plan'
      → (b.action.id ≡ b'.action.id)
        × (b.action.version ≡ b'.action.version)
        × (b.parameters ≡ b'.parameters)
  same_action b b' plan plan' h h' e =
      let made = build_lem sha256 duration_text _ _ _ plan h in
      let made' = build_lem sha256 duration_text _ _ _ plan' h' in
      let id = is_entry b.action.id plan.definition made.0 in
      let id' = is_entry b'.action.id plan'.definition made'.0 in
      (
        sym id.0 ∙ ap (λ q. q.definition.id) e ∙ id'.0,
        made.6 ∙ ap (λ q. q.definition.version) e ∙ sym made'.6,
        sym made.1 ∙ ap (λ q. q.parameters) e ∙ made'.1,
      )

  module _ (bytes : (s : Text) → IsBytes (sha256 s)) where
    hex_same : (s t : Text) → hex (sha256 s) ≡ hex (sha256 t) → (s ≡ t) ⊎ Collision sha256
    hex_same s t e =
        same_or_Collision sha256 s t (hex-injective (sha256 s) (sha256 t) (bytes s) (bytes t) e)

    bound_digest_parts :
        (b b' : RunbookBinding) (s s' : Text)
        → OneLineTarget b
        → OneLineTarget b'
        → bound_digest sha256 duration_text (hex (sha256 s)) b
          ≡ bound_digest sha256 duration_text (hex (sha256 s')) b'
        → (bound_parts (hex (sha256 s)) b ≡ bound_parts (hex (sha256 s')) b') ⊎ Collision sha256
    unfolding bound_digest
    bound_digest_parts b b' s s' v v' e = elim (hex_same _ _ e) [
      | inr c ↦ inr c
      | inl same ↦ inl (
          join_unique 10 (bound_parts (hex (sha256 s)) b) (bound_parts (hex (sha256 s')) b') refl
            (bound_parts-Lacks b (sha256 s) v) (bound_parts-Lacks b' (sha256 s') v') same)
    ]

    same_binding :
        (b b' : RunbookBinding) (plan plan' : Plan) (digest digest' : Text)
        (v : IsBound b plan digest) (v' : IsBound b' plan' digest')
        → bound_parts (hex (sha256 v.scope)) b ≡ bound_parts (hex (sha256 v'.scope)) b'
        → v.scope ≡ v'.scope
        → b ≡ b'
    same_binding b b' plan plan' digest digest' v v' parts scopes =
        let port : b.target.port ≡ b'.target.port = itoa_ℤ-injective _ _ (cc) in
        let texts : scope_text b.host_id b.job_id plan ≡ scope_text b'.host_id b'.job_id plan' =
          v.scope_same ∙ ap some scopes ∙ sym v'.scope_same in
        let plans =
          scope_text-injective sha256 duration_text b.host_id b'.host_id b.job_id b'.job_id v.host
            v'.host v.job v'.job b.action.id b'.action.id b.action.version b'.action.version
            b.parameters b'.parameters plan plan' v.built v'.built texts in
        let actions = same_action b b' plan plan' v.built v'.built plans.2 in
        ground (arith, port, parts, plans.0, plans.1, actions.0, actions.1, actions.2)

    -- The digest that an approval names determines what is executed: two bindings with the same
    -- digest are the same, in host, job, action, parameters, SSH target, host key and credential; or
    -- two different texts with the same SHA-256 are at hand.
    pub digest_binds :
        (protocol protocol' : Text) (b b' : RunbookBinding) (plan plan' : Plan) (digest : Text)
        → build_bound_plan sha256 duration_text protocol b ≡ ok (plan, digest)
        → build_bound_plan sha256 duration_text protocol' b' ≡ ok (plan', digest)
        → (b ≡ b') ⊎ Collision sha256
    digest_binds protocol protocol' b b' plan plan' digest h h' =
        let v = build_bound_plan-IsBound protocol b plan digest h in
        let v' = build_bound_plan-IsBound protocol' b' plan' digest h' in
        elim (bound_digest_parts b b' v.scope v'.scope (validate_bound_target-OneLine b v.target)
          (validate_bound_target-OneLine b' v'.target) (sym v.digest_same ∙ v'.digest_same)) [
            | inr c ↦ inr c
            | inl parts ↦ elim (hex_same v.scope v'.scope (cc parts)) [
              | inr c ↦ inr c
              | inl scopes ↦ inl (same_binding b b' plan plan' digest digest v v' parts scopes)
            ]
          ]
