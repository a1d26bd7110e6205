-- ===== src/Identity/Validity.antt =====
-- services/control-plane/internal/identity/assertion.go: what an accepted assertion has shown.
use vps_manager.Base.{
  ◌+◌, ◌-◌, ◌*◌, ◌<◌, ◌≤◌, ◌≡◌, refl, ◌⊎◌, inl, inr, Bool, Option, some, true, false, ◌++◌, List,
  codes, Option-cases, [], ◌∷◌, arith, Time, second, Text, length, contains, text_eq_iff,
  Bool-cases, Result-cases, ok,
}
use vps_manager.Encoding.Join.{split}
use vps_manager.Access.{Principal}
use vps_manager.Access.Grants.{valid_role}
use vps_manager.RequestAuth.Headers.{unix_time}
use vps_manager.Identity.{
  Verifier, Claims, Header, validate_claims, check_host_ids, read_assertion, accept_claims, verify,
  parts_of, decode_segment,
}

-- No text stands twice.
abbrev pub Distinct : List Text → Type 0
Distinct [] = Unit
Distinct (s ∷ rest) = (contains rest s ≡ false) × Distinct rest

check_host_ids-seen :
    (seen rest : List Text) (s : Text)
    → check_host_ids seen rest ≡ ok tt
    → contains seen s ≡ true
    → contains rest s ≡ false
unfolding check_host_ids
check_host_ids-seen seen [] s h old = refl
check_host_ids-seen seen (t ∷ rest) s h old =
    ground (arith, h, old, text_eq_iff t s, check_host_ids-seen (t ∷ seen) rest s)

check_host_ids-Distinct : (seen rest : List Text) → check_host_ids seen rest ≡ ok tt → Distinct rest
unfolding check_host_ids
check_host_ids-Distinct seen [] h = tt
check_host_ids-Distinct seen (t ∷ rest) h = (
  check_host_ids-seen (t ∷ seen) rest t (ground (arith, h)) (ground (arith, text_eq_iff t t)),
  check_host_ids-Distinct (t ∷ seen) rest (ground (arith, h)),
)

-- Claims that are in order: for this verifier, of a listed role, for hosts each named once, issued not
-- after the clock and run out not before it, up to the skew, and good for a minute at most.
pub record IsValid (v : Verifier) (c : Claims) (now : Time) : Type 0 where
  pub issuer : c.issuer ≡ v.issuer
  pub audience : c.audience ≡ v.audience
  pub role : valid_role c.role ≡ true
  pub hosts : Distinct c.host_ids
  pub all_or_listed : (c.all_hosts ≡ false) ⊎ (length c.host_ids ≡ 0)
  pub issued : unix_time c.issued_at ≤ now + v.skew
  pub running : now - v.skew < unix_time c.expires
  pub short : unix_time c.expires ≤ unix_time c.issued_at + 60 * second

validate_claims-IsValid :
    (v : Verifier) (c : Claims) (now : Time) → validate_claims v c now ≡ ok tt → IsValid v c now
unfolding validate_claims
validate_claims-IsValid v c now h = elim (Result-cases (check_host_ids [] c.host_ids)) [
  | inr (e, bad) ↦ absurd (ground (arith, h, bad))
  | inl (u, good) ↦ record {
    issuer = ground (arith, h, text_eq_iff c.issuer v.issuer);
    audience = ground (arith, h, text_eq_iff c.audience v.audience);
    role = ground (arith, h);
    hosts = check_host_ids-Distinct [] c.host_ids (ground (arith, good));
    all_or_listed = elim (Bool-cases c.all_hosts) [
      | inl all ↦ inr (ground (arith, h, all))
      | inr some_ ↦ inl some_
    ];
    issued = ground (arith, h, good);
    running = ground (arith, h, good);
    short = ground (arith, h, good);
  }
]

module _ (sha256 : Text → Text) (verifies : Text → Text → Text → Bool)
    (decode_header : Text → Option Header) (decode_claims : Text → Option Claims) where
  -- The assertion has three parts: a header of the accepted kind, which names the verifier's key; claims;
  -- and 64 bytes that are a signature of the first two under that key.
  pub record IsSigned (v : Verifier) (a : Text) (c : Claims) : Type 0 where
    pub header : Text
    pub payload : Text
    pub signature : Text
    pub parts : split b'.' a ≡ header ∷ payload ∷ signature ∷ []
    pub header_bytes : Text
    pub header_decoded : decode_segment header 1024 ≡ some header_bytes
    pub claimed : Header
    pub header_read : decode_header header_bytes ≡ some claimed
    pub algorithm : claimed.algorithm ≡ codes "EdDSA"
    pub key_id : claimed.key_id ≡ v.key_id
    pub signature_bytes : Text
    pub signature_decoded : decode_segment signature 64 ≡ some signature_bytes
    pub signature_long : length signature_bytes ≡ 64
    pub signed : verifies v.key (header ++ b'.' ∷ payload) signature_bytes ≡ true
    pub claims_bytes : Text
    pub claims_decoded : decode_segment payload 8192 ≡ some claims_bytes
    pub claims_read : decode_claims claims_bytes ≡ some c

  parts_of-three :
      (l : List Text) (p : Text × Text × Text)
      → parts_of sha256 verifies decode_header decode_claims l ≡ ok p
      → l ≡ p.0 ∷ p.1 ∷ p.2 ∷ []
  unfolding parts_of
  parts_of-three [] p h = cc
  parts_of-three (a ∷ []) p h = cc
  parts_of-three (a ∷ b ∷ []) p h = cc
  parts_of-three (a ∷ b ∷ c ∷ []) p h =
      let same : (a, b, c) ≡ p = ground (arith, h) in rw (← same) refl
  parts_of-three (a ∷ b ∷ c ∷ d ∷ l) p h = cc

  read_assertion-IsSigned :
      (v : Verifier) (a : Text) (c : Claims)
      → read_assertion sha256 verifies decode_header decode_claims v a ≡ ok c
      → IsSigned v a c
  unfolding read_assertion
  read_assertion-IsSigned v a c h =
      elim (Result-cases (parts_of sha256 verifies decode_header decode_claims (split b'.' a))) [
        | inr (e, bad) ↦ absurd (ground (arith, h, bad))
        | inl (p, three) ↦ elim (Option-cases (decode_segment p.0 1024)) [
          | inl bad ↦ absurd (ground (arith, h, three, bad))
          | inr (hb, eh) ↦ elim (Option-cases (decode_header hb)) [
            | inl bad ↦ absurd (ground (arith, h, three, eh, bad))
            | inr (k, ek) ↦ elim (Option-cases (decode_segment p.2 64)) [
              | inl bad ↦ absurd (ground (arith, h, three, eh, ek, bad))
              | inr (sb, es) ↦ elim (Option-cases (decode_segment p.1 8192)) [
                | inl bad ↦ absurd (ground (arith, h, three, eh, ek, es, bad))
                | inr (cb, ec) ↦ record {
                  header = p.0;
                  payload = p.1;
                  signature = p.2;
                  parts = parts_of-three (split b'.' a) p three;
                  header_bytes = hb;
                  header_decoded = eh;
                  claimed = k;
                  header_read = ek;
                  algorithm =
                      ground (arith, h, three, eh, ek, text_eq_iff k.algorithm (codes "EdDSA"));
                  key_id = ground (arith, h, three, eh, ek, text_eq_iff k.key_id v.key_id);
                  signature_bytes = sb;
                  signature_decoded = es;
                  signature_long = ground (arith, h, three, eh, ek, es);
                  signed = ground (arith, h, three, eh, ek, es);
                  claims_bytes = cb;
                  claims_decoded = ec;
                  claims_read = ground (arith, h, three, eh, ek, es, ec);
                }
              ]
            ]
          ]
        ]
      ]

  pub accept_claims-IsValid :
      (v : Verifier) (a : Text) (now : Time) (c : Claims)
      → accept_claims sha256 verifies decode_header decode_claims v a now ≡ ok c
      → (read_assertion sha256 verifies decode_header decode_claims v a ≡ ok c) × IsValid v c now
  unfolding accept_claims
  accept_claims-IsValid v a now c h =
      elim (Result-cases (read_assertion sha256 verifies decode_header decode_claims v a)) [
        | inr (e, bad) ↦ absurd (ground (arith, h, bad))
        | inl (d, read) ↦ elim (Result-cases (validate_claims v d now)) [
          | inr (e, bad) ↦ absurd (ground (arith, h, read, bad))
          | inl (u, good) ↦
              let same : d ≡ c = ground (arith, h, read, good) in
              rw (← same) (read, validate_claims-IsValid v d now (ground (arith, good)))
        ]
      ]

  -- The principal of an accepted assertion is that of claims which are in order when they are
  -- validated, and which are signed: the assertion's third part is decoded to 64 bytes that Ed25519 accepts
  -- under the verifier's key, for the header and the claims as they stand in the assertion, and the
  -- header names that key.
  pub verified-IsValid :
      (v w : Verifier) (a : Text) (now consumed_at : Time) (p : Principal)
      → verify sha256 verifies decode_header decode_claims v a now consumed_at ≡ (w, ok p)
      → (c : Claims) × IsSigned v a c
        × IsValid v c now
        × (p.subject ≡ c.subject)
        × (p.role ≡ c.role)
        × (p.all_hosts ≡ c.all_hosts)
        × (p.host_ids ≡ c.host_ids)
  unfolding verify accept_claims
  verified-IsValid v w a now consumed_at p h =
      elim (Result-cases (accept_claims sha256 verifies decode_header decode_claims v a now)) [
        | inr (e, bad) ↦ absurd (ground (arith, h, bad))
        | inl (c, good) ↦ (
          c,
          read_assertion-IsSigned v a c (accept_claims-IsValid v a now c good).0,
          (accept_claims-IsValid v a now c good).1,
          ground (arith, h, good),
          ground (arith, h, good),
          ground (arith, h, good),
          ground (arith, h, good),
        )
      ]
