-- ===== src/Store/Hosts.antt =====
-- Hosts and their credentials.
use vps_manager.Base.{
  ℕ, ◌≡◌, ◌≢◌, refl, Bool, true, false, ◌==◌, Option, none, some, List, [], ◌∷◌, arith, Text, Table,
  lookup, insert, delete, lookup-insert, lookup-delete, text_eq_iff, text_eq_refl, Check, ok, err,
  inl, inr, Option-cases,
}
use vps_manager.Store.Types.{Memory, Host, StoredCredential, Error, conflict}
use vps_manager.Store.{create_host, update_host, delete_host, put_credential, delete_credential}

pub data Call : Type 0 where
  creates : Host → Call
  updates : Host → ℕ → Call
  deletes drops_credential : Text → Call
  puts : StoredCredential → Call

abbrev is_there {ℓ} : {V : Type ℓ} → Option V → Bool
is_there none = false
is_there (some v) = true

-- The host of every credential is there.
abbrev pub IsBacked : Table Host → Table StoredCredential → Type 0
IsBacked hosts [] = Unit
IsBacked hosts ((host_id, credential) ∷ m) =
    (is_there (lookup host_id hosts) ≡ true) × IsBacked hosts m

IsBacked-insert :
    (id : Text) (host : Host) (hosts : Table Host) (m : Table StoredCredential)
    → IsBacked hosts m
    → IsBacked (insert id host hosts) m
IsBacked-insert id host hosts [] h = tt
IsBacked-insert id host hosts ((k, c) ∷ m) h =
    (ground (arith, h, lookup-insert id k host hosts), IsBacked-insert id host hosts m h.1)

IsBacked-delete :
    (id : Text) (hosts : Table Host) (m : Table StoredCredential)
    → IsBacked hosts m
    → IsBacked hosts (delete id m)
unfolding delete
IsBacked-delete id hosts [] h = tt
IsBacked-delete id hosts ((k, c) ∷ m) h = ground (arith, IsBacked-delete id hosts m h.1)

IsBacked-delete_both :
    (id : Text) (hosts : Table Host) (m : Table StoredCredential)
    → IsBacked hosts m
    → IsBacked (delete id hosts) (delete id m)
unfolding delete
IsBacked-delete_both id hosts [] h = tt
IsBacked-delete_both id hosts ((k, c) ∷ m) h = ground (
  arith,
  IsBacked-delete_both id hosts m h.1,
  lookup-delete id k hosts,
  text_eq_iff k id,
  text_eq_iff id k,
)

module _ {ℓ} {Payload : Type ℓ} where
  unfoldable pub step : Memory Payload → Call → Memory Payload × Check Error
  unfolding create_host update_host delete_host put_credential delete_credential
  step m (creates host) = create_host m host
  step m (updates host expected) = update_host m host expected
  step m (deletes id) = delete_host m id
  step m (drops_credential host_id) = delete_credential m host_id
  step m (puts credential) = put_credential m credential

  unfoldable pub run : Memory Payload → List Call → Memory Payload
  run m [] = m
  run m (c ∷ calls) = run (step m c).0 calls

  step-IsBacked :
      (m : Memory Payload) (c : Call)
      → IsBacked m.hosts m.credentials
      → IsBacked (step m c).0.hosts (step m c).0.credentials
  unfolding step create_host update_host delete_host put_credential delete_credential insert
  step-IsBacked m (creates host) h = elim (Option-cases (lookup host.id m.hosts)) [
    | inl absent ↦ rw absent (IsBacked-insert host.id host m.hosts m.credentials h)
    | inr (current, present) ↦ rw present h
  ]
  step-IsBacked m (updates host expected) h =
      ground (arith, IsBacked-insert host.id host m.hosts m.credentials h)
  step-IsBacked m (deletes id) h = ground (arith, IsBacked-delete_both id m.hosts m.credentials h)
  step-IsBacked m (drops_credential id) h =
      ground (arith, IsBacked-delete id m.hosts m.credentials h)
  step-IsBacked m (puts credential) h =
      elim (Option-cases (lookup credential.metadata.host_id m.hosts)) [
        | inl absent ↦ rw absent h
        | inr (host, present) ↦
            rw present
              (rw present refl, IsBacked-delete credential.metadata.host_id m.hosts m.credentials h)
      ]

  -- Whatever hosts and credentials are written and deleted, no credential is kept of a host that is
  -- not there.
  pub credentials-IsBacked :
      (m : Memory Payload) (calls : List Call)
      → IsBacked m.hosts m.credentials
      → IsBacked (run m calls).hosts (run m calls).credentials
  unfolding run
  credentials-IsBacked m [] h = h
  credentials-IsBacked m (c ∷ calls) h =
      credentials-IsBacked (step m c).0 calls (step-IsBacked m c h)

  updated :
      (m m' : Memory Payload) (host : Host) (expected : ℕ)
      → update_host m host expected ≡ (m', ok tt)
      → lookup host.id m'.hosts ≡ some host
  unfolding update_host
  updated m m' host expected h = elim (Option-cases (lookup host.id m.hosts)) [
    | inl absent ↦ ground (arith, h, absent)
    | inr (current, present) ↦
        ground (arith, h, present, lookup-insert host.id host.id host m.hosts, text_eq_refl host.id)
  ]

  -- After an update from a version that wrote another version, a second update of the same host from
  -- that version is refused as a conflict and changes nothing.
  pub stale_update_conflicts :
      (m m' : Memory Payload) (host other : Host) (expected : ℕ)
      → update_host m host expected ≡ (m', ok tt)
      → host.version ≢ expected
      → other.id ≡ host.id
      → update_host m' other expected ≡ (m', err conflict)
  unfolding update_host
  stale_update_conflicts m m' host other expected h v same =
      let stored = updated m m' host expected h in
      let stale : (host.version == expected) ≡ false = ground (arith, v) in
      rw (same, stored, stale) refl
