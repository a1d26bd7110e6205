-- ===== src/Access/Sessions.antt =====
-- A bearer token is good from its issue until it expires or is revoked, and no longer.
use vps_manager.Base.{
  ◌≡◌, ◌≢◌, ◌⊎◌, refl, true, false, none, some, [], ◌++◌, arith, Time, Duration, add_time, Text,
  lookup, ltb, text_eq_iff, text_eq_refl, text_eq_ne, has_prefix, trim_space-plain, ok,
  Option-cases, inl, inr, lookup-insert, lookup-delete, if◌then◌else◌,
}
use vps_manager.Encoding.Base64
use vps_manager.Encoding.Base64.{encode-IsPlain, encode-ne-nil}
use vps_manager.Access.{
  Principal, Session, StoredSession, Sessions, issue, authenticate, revoke, bearer, bearer_token,
  admit, new_session,
}

pub bearer-has_prefix : (token : Text) → has_prefix (bearer ++ token) bearer ≡ true
unfolding has_prefix
bearer-has_prefix token = refl

pub bearer_token-encode :
    (raw : Text) → bearer_token (bearer ++ Base64.encode raw) ≡ Base64.encode raw
unfolding bearer_token
bearer_token-encode raw = trim_space-plain (Base64.encode raw) (encode-IsPlain raw)

module _ (sha256 : Text → Text) where
  pub authenticate-admit :
      (s : Sessions) (raw : Text) (now : Time)
      → raw ≢ []
      → authenticate sha256 s (bearer ++ Base64.encode raw) now
        ≡ admit sha256 s (sha256 (Base64.encode raw)) now (lookup (sha256 (Base64.encode raw)) s)
  unfolding authenticate
  authenticate-admit s raw now h =
      rw (bearer-has_prefix (Base64.encode raw), bearer_token-encode raw)
        (ground (arith, encode-ne-nil raw h))

  issue-stored :
      (s : Sessions) (p : Principal) (ttl : Duration) (start : Time) (raw id token : Text)
      (session : Session)
      → (issue sha256 s p ttl start (some raw) (some id)).1 ≡ ok (token, session)
      → (token ≡ Base64.encode raw)
        × (session.expires_at ≡ add_time start ttl)
        × (lookup (sha256 token) (issue sha256 s p ttl start (some raw) (some id)).0
            ≡ some (record { session = session; token_hash = sha256 token; revoked = false }))
  unfolding issue
  issue-stored s p ttl start raw id token session e = (
    ground arith,
    ground arith,
    ground (
      arith,
      lookup-insert (sha256 (Base64.encode raw)) (sha256 (Base64.encode raw))
          (record { session = session; token_hash = sha256 (Base64.encode raw); revoked = false })
          s,
      text_eq_refl (sha256 (Base64.encode raw)),
    ),
  )

  admit-fresh :
      (s : Sessions) (hash : Text) (session : Session) (now : Time)
      → (admit sha256 s hash now
          (some (record { session = session; token_hash = hash; revoked = false }))).1
        ≡ (if ltb now session.expires_at then some session.principal else none)
  admit-fresh s hash session now = ground (arith, text_eq_refl hash)

  -- A token that was just issued authenticates its principal, with the session's own id, exactly
  -- before the session expires; the session expires `ttl` after the issue.
  pub authenticate-issue :
      (s : Sessions) (p : Principal) (ttl : Duration) (start : Time) (raw id token : Text)
      (session : Session) (now : Time)
      → raw ≢ []
      → (issue sha256 s p ttl start (some raw) (some id)).1 ≡ ok (token, session)
      → ((authenticate sha256
            (issue sha256 s p ttl start (some raw) (some id)).0
            (bearer ++ token)
            now).1
          ≡ (if ltb now session.expires_at then some session.principal else none))
        × (session.expires_at ≡ add_time start ttl)
  authenticate-issue s p ttl start raw id token session now h e =
      let i = issue-stored s p ttl start raw id token session e in
      let s' = (issue sha256 s p ttl start (some raw) (some id)).0 in
      let hash = sha256 (Base64.encode raw) in
      let found : lookup hash s'
          ≡ some (record { session = session; token_hash = hash; revoked = false }) =
        rw i.0 at i.2 in
      (rw (i.0, authenticate-admit s' raw now h, found) (admit-fresh s' hash session now), i.1)

  -- The token's hash has no session, or a revoked one.
  abbrev pub IsDead : Text → Sessions → Type 0
  IsDead hash s =
      (lookup hash s ≡ none)
      ⊎ ((stored : StoredSession) × (lookup hash s ≡ some stored) × (stored.revoked ≡ true))

  -- One call of the API. An issue comes with the random bytes that it draws.
  abbrev pub run_issue : Sessions → Principal → Duration → Time → Text → Text → Sessions
  run_issue s p ttl now raw id = (issue sha256 s p ttl now (some raw) (some id)).0

  pub issue-IsDead :
      (s : Sessions) (p : Principal) (ttl : Duration) (now : Time) (raw id hash : Text)
      → sha256 (Base64.encode raw) ≢ hash
      → IsDead hash s
      → IsDead hash (run_issue s p ttl now raw id)
  unfolding issue
  issue-IsDead s p ttl now raw id hash ne d = ground (
    arith,
    d,
    text_eq_ne (sha256 (Base64.encode raw)) hash ne,
    lookup-insert (sha256 (Base64.encode raw)) hash
        (record {
          session = new_session p ttl now id;
          token_hash = sha256 (Base64.encode raw);
          revoked = false;
        })
        s,
  )

  pub authenticate-IsDead :
      (s : Sessions) (authorization : Text) (now : Time) (hash : Text)
      → IsDead hash s
      → IsDead hash (authenticate sha256 s authorization now).0
  unfolding authenticate
  authenticate-IsDead s authorization now hash d =
      let other = sha256 (bearer_token authorization) in
      elim (Option-cases (lookup other s)) [
        | inl e ↦ rw (e, authenticate) (ground (arith, d))
        | inr (f, e) ↦
            rw (e, authenticate)
              (ground (arith, d, lookup-delete other hash s, text_eq_iff other hash))
      ]

  pub revoke-IsDead :
      (s : Sessions) (authorization hash : Text)
      → IsDead hash s
      → IsDead hash (revoke sha256 s authorization).0
  unfolding revoke
  revoke-IsDead s authorization hash d =
      let other = sha256 (bearer_token authorization) in
      elim (Option-cases (lookup other s)) [
        | inl e ↦ rw (e, revoke) (ground (arith, d))
        | inr (f, e) ↦
            rw (e, revoke)
              (elim d [
                | inl absent ↦ ground (
                  arith,
                  absent,
                  e,
                  text_eq_iff other hash,
                  lookup-insert other hash (record f { revoked = true }) s,
                )
                | inr (g, there, gone) ↦ ground (
                  arith,
                  there,
                  gone,
                  e,
                  text_eq_iff other hash,
                  lookup-insert other hash (record f { revoked = true }) s,
                )
              ])
      ]
