-- ===== src/Access/Revocation.antt =====
-- A revoked token stays revoked, and what the check before a queued job's side effect shows.
use vps_manager.Base.{
  ◌<◌, ◌≡◌, ◌≢◌, refl, true, false, not, ◌||◌, none, some, List, [], ◌∷◌, ◌++◌, arith, Time,
  Duration, Text, lookup, ltb, text_eq, text_eq_iff, text_eq_refl, Option-cases, inl, inr,
  lookup-insert, Bool-cases,
}
use vps_manager.Encoding.Base64
use vps_manager.Access.Grants.{Permission, allowed}
use vps_manager.Access.{
  Principal, StoredSession, Sessions, authenticate, revoke, bearer, authorize_session,
  can_access_host,
}
use vps_manager.Access.Sessions.{
  IsDead, issue-IsDead, authenticate-IsDead, revoke-IsDead, authenticate-admit, run_issue,
  bearer-has_prefix, bearer_token-encode,
}

pub data Call : Type 0 where
  issues : Principal → Duration → Time → Text → Text → Call
  authenticates : Text → Time → Call
  revokes : Text → Call

module _ (sha256 : Text → Text) where
  pub step : Sessions → Call → Sessions
  step s (issues p ttl now raw id) = run_issue sha256 s p ttl now raw id
  step s (authenticates authorization now) = (authenticate sha256 s authorization now).0
  step s (revokes authorization) = (revoke sha256 s authorization).0

  pub run : Sessions → List Call → Sessions
  unfolding step
  run s [] = s
  run s (c ∷ cs) = run (step s c) cs

  -- The call issues no token with this hash.
  abbrev pub Avoids : Text → Call → Type 0
  Avoids hash (issues p ttl now raw id) = sha256 (Base64.encode raw) ≢ hash
  Avoids hash _ = Unit

  abbrev pub AllAvoid : Text → List Call → Type 0
  AllAvoid hash [] = Unit
  AllAvoid hash (c ∷ cs) = Avoids hash c × AllAvoid hash cs

  step-IsDead :
      (s : Sessions) (c : Call) (hash : Text)
      → Avoids hash c
      → IsDead sha256 hash s
      → IsDead sha256 hash (step s c)
  unfolding step
  step-IsDead s (issues p ttl now raw id) hash a d = issue-IsDead sha256 s p ttl now raw id hash a d
  step-IsDead s (authenticates authorization now) hash a d =
      authenticate-IsDead sha256 s authorization now hash d
  step-IsDead s (revokes authorization) hash a d = revoke-IsDead sha256 s authorization hash d

  run-IsDead :
      (s : Sessions) (cs : List Call) (hash : Text)
      → AllAvoid hash cs
      → IsDead sha256 hash s
      → IsDead sha256 hash (run s cs)
  unfolding run
  run-IsDead s [] hash a d = d
  run-IsDead s (c ∷ cs) hash a d = run-IsDead (step s c) cs hash a.1 (step-IsDead s c hash a.0 d)

  revoke-dies :
      (s : Sessions) (raw : Text)
      → IsDead sha256 (sha256 (Base64.encode raw)) (revoke sha256 s (bearer ++ Base64.encode raw)).0
  unfolding revoke
  revoke-dies s raw =
      rw (bearer-has_prefix (Base64.encode raw), bearer_token-encode raw)
        (elim (Option-cases (lookup (sha256 (Base64.encode raw)) s)) [
          | inl e ↦ rw e (inl e)
          | inr (f, e) ↦ rw e (
              inr (
                record f { revoked = true },
                ground (
                  arith,
                  text_eq_refl (sha256 (Base64.encode raw)),
                  lookup-insert (sha256 (Base64.encode raw)) (sha256 (Base64.encode raw))
                      (record f { revoked = true }) s,
                ),
                refl,
              ))
        ])

  dead-refused :
      (s : Sessions) (raw : Text) (now : Time)
      → raw ≢ []
      → IsDead sha256 (sha256 (Base64.encode raw)) s
      → (authenticate sha256 s (bearer ++ Base64.encode raw) now).1 ≡ none
  dead-refused s raw now h d = rw (authenticate-admit sha256 s raw now h) (elim d [
    | inl absent ↦ rw absent refl
    | inr (f, there, gone) ↦ rw there (ground (arith, gone))
  ])

  -- After a token is revoked it authenticates nobody, at any time and after any calls that issue no
  -- token with the same hash.
  pub revoked_stays :
      (s : Sessions) (raw : Text) (cs : List Call) (now : Time)
      → raw ≢ []
      → AllAvoid (sha256 (Base64.encode raw)) cs
      → (authenticate sha256
          (run (revoke sha256 s (bearer ++ Base64.encode raw)).0 cs)
          (bearer ++ Base64.encode raw)
          now).1
        ≡ none
  revoked_stays s raw cs now h a =
      let s' = (revoke sha256 s (bearer ++ Base64.encode raw)).0 in
      dead-refused (run s' cs) raw now h
        (run-IsDead s' cs (sha256 (Base64.encode raw)) a (revoke-dies s raw))

-- A stored session of the id that allows the permission on the host.
pub data Permits (id : Text) (permission : Permission) (host : Text) (now : Time) (p : Principal)
    : Sessions → Type 0 where
  here :
      {hash : Text} {stored : StoredSession} {s : Sessions}
      → stored.principal ≡ p
      → stored.principal.session_id ≡ id
      → stored.revoked ≡ false
      → now < stored.expires_at
      → Permits id permission host now p ((hash, stored) ∷ s)
  later :
      {hash : Text} {stored : StoredSession} {s : Sessions}
      → Permits id permission host now p s
      → Permits id permission host now p ((hash, stored) ∷ s)

-- A positive answer before a side effect means that a session of the id is stored which is neither
-- revoked nor expired, that its principal is the one returned, that the role is granted the
-- permission, and that the host is within the principal's scope.
pub authorize_session_sound :
    (s : Sessions) (id : Text) (permission : Permission) (host : Text) (now : Time) (p : Principal)
    → authorize_session s id permission host now ≡ (some p, true)
    → Permits id permission host now p s
      × (allowed p.role permission ≡ true)
      × (can_access_host p host ≡ true)
unfolding authorize_session
authorize_session_sound [] id permission host now p h = absurd (ground arith)
authorize_session_sound ((hash, stored) ∷ s) id permission host now p h =
    elim (Bool-cases (
      not (text_eq stored.principal.session_id id)
      || stored.revoked
      || not (ltb now stored.expires_at))) [
        | inl skip ↦
            let rest =
              authorize_session_sound s id permission host now p (ground (arith, h, skip)) in
            (later rest.0, rest.1, rest.2)
        | inr found ↦ (
          here (ground (arith, h, found))
              (ground (arith, found, text_eq_iff stored.principal.session_id id))
              (ground (arith, found)) (ground (arith, found)),
          ground (arith, h, found),
          ground (arith, h, found),
        )
      ]
