-- ===== src/Repository/Validation.antt =====
-- services/persistence/types.go: what the repository checks of a record before it stores it.
-- `decode` is what `json.Valid` and the decoder make of a text: `none` if it is no JSON.
use vps_manager.Base.{
  ◌≡◌, arith, Bool, true, false, not, ◌||◌, Option, none, some, List, [], ◌∷◌, ◌++◌, pos, ltb_ℤ,
  Text, Table, codes, length, ltb, ◌==◌, trim_space, contains, if◌then◌else◌, Check, ok, err, ◌>>◌,
  reject_if,
}
use vps_manager.Coordinator.Validation.{matches_identifier}
use vps_manager.Repository.Types.{
  Asset, CredentialEnvelope, Job, AuditEvent, Error, unsafe_json, invalid, identifier_invalid,
  max_json_bytes,
}
use vps_manager.Repository.Secrets.{
  Json, object, contains_secret_field, is_secret_field, HasKey, HasDistinctKeys, safe_keys,
}

unfoldable pub validate_identifier : Text → Text → Check Error
validate_identifier label value =
    reject_if (not (matches_identifier value)) (identifier_invalid label)

abbrev is_blank : Text → Bool
is_blank s = length (trim_space s) == 0

abbrev labels_invalid : Table Text → Bool
labels_invalid [] = false
labels_invalid ((key, value) ∷ labels) =
    length key == 0
    || ltb 128 (length key)
    || ltb 512 (length value)
    || is_secret_field key
    || labels_invalid labels

unfoldable pub validate_asset : Asset → Check Error
unfolding validate_identifier
validate_asset asset = do
  validate_identifier (codes "installation id") asset.installation_id
  validate_identifier (codes "asset id") asset.id
  reject_if (is_blank asset.name || ltb 200 (length asset.name))
      (invalid (codes "asset name is invalid"))
  reject_if (is_blank asset.address || ltb 255 (length asset.address))
      (invalid (codes "asset address is invalid"))
  reject_if (ltb_ℤ asset.port (pos 1) || ltb_ℤ (pos 65535) asset.port)
      (invalid (codes "asset port is invalid"))
  reject_if (is_blank asset.username || ltb 128 (length asset.username))
      (invalid (codes "asset username is invalid"))
  reject_if (labels_invalid asset.labels) (invalid (codes "asset labels are invalid"))

abbrev job_states : List Text
job_states =
    codes "created"
    ∷ codes "prechecking"
    ∷ codes "awaiting_approval"
    ∷ codes "queued"
    ∷ codes "running"
    ∷ codes "verifying"
    ∷ codes "succeeded"
    ∷ codes "failed"
    ∷ codes "timed_out"
    ∷ codes "cancelled"
    ∷ codes "orphaned"
    ∷ codes "reconciling"
    ∷ []

unfoldable pub valid_job_state : Text → Bool
valid_job_state state = contains job_states state

-- fmt.Errorf("…: %w", err)
abbrev wrapped : Text → Check Error → Check Error
wrapped prefix (ok u) = ok u
wrapped prefix (err (invalid message)) = err (invalid (prefix ++ message))
wrapped prefix (err e) = err e

module _ (decode : Text → Option Json) where
  -- What the decoder gave is judged.
  abbrev judged : Option Json → Check Error
  judged none = err (invalid (codes "JSON payload is invalid or too large"))
  judged (some value) = reject_if (contains_secret_field value 0) unsafe_json

  unfoldable pub validate_safe_json : Text → Check Error
  validate_safe_json raw =
      if length raw == 0
      then ok tt
      else if ltb max_json_bytes (length raw)
      then err (invalid (codes "JSON payload is invalid or too large"))
      else judged (decode raw)

  abbrev is_object : Option Json → Bool
  is_object (some (object members)) = true
  is_object _ = false

  unfoldable pub validate_safe_json_object : Text → Check Error
  unfolding validate_safe_json
  validate_safe_json_object raw = if length raw == 0 then ok tt else do
    validate_safe_json raw
    reject_if (not (is_object (decode raw))) (invalid (codes "JSON payload must be an object"))

  -- If a payload is accepted in which no object has a key twice, no object in it, at any depth, has a key
  -- that names a secret. `document` is the tree that the text is, repeated keys included, and
  -- `decodes` that the decoder gives this tree if there are none; what it makes of repeated keys is
  -- left open, and nothing is said of such payloads.
  pub accepted_has_no_secret :
      (document : Text → Option Json)
      (decodes : (raw : Text) (tree : Json)
        → document raw ≡ some tree
        → HasDistinctKeys tree
        → decode raw ≡ some tree)
      (raw key : Text) (tree : Json)
      → validate_safe_json raw ≡ ok tt
      → (length raw == 0) ≡ false
      → document raw ≡ some tree
      → HasDistinctKeys tree
      → HasKey key tree
      → is_secret_field key ≡ false
  unfolding validate_safe_json
  accepted_has_no_secret document decodes raw key tree h n d distinct k =
      safe_keys tree 0 key (ground (arith, h, n, decodes raw tree d distinct)) k

  unfoldable pub validate_credential : CredentialEnvelope → Check Error
  unfolding validate_identifier validate_safe_json_object
  validate_credential envelope = do
    validate_identifier (codes "installation id") envelope.installation_id
    validate_identifier (codes "credential id") envelope.credential_id
    reject_if
        (envelope.version == 0
          || not (matches_identifier envelope.kind)
          || length envelope.key_id == 0
          || ltb 512 (length envelope.key_id))
        (invalid (codes "credential envelope metadata is incomplete"))
    reject_if (length envelope.ciphertext == 0 || length envelope.wrapped_key == 0)
        (invalid (codes "credential envelope is incomplete"))
    validate_safe_json_object envelope.metadata

  abbrev optional_identifier : Text → Text → Check Error
  unfolding validate_identifier
  optional_identifier label value =
      if length value == 0 then ok tt else validate_identifier label value

  unfoldable pub validate_job : Job → Check Error
  unfolding validate_identifier valid_job_state validate_safe_json_object
  validate_job job = do
    validate_identifier (codes "installation id") job.installation_id
    validate_identifier (codes "job id") job.id
    validate_identifier (codes "asset id") job.asset_id
    reject_if
        (not (matches_identifier job.kind)
          || not (valid_job_state job.state)
          || length job.requested_by == 0
          || ltb 256 (length job.requested_by))
        (invalid (codes "job metadata is incomplete"))
    optional_identifier (codes "request id") job.request_id
    optional_identifier (codes "idempotency key") job.idempotency_key
    wrapped (codes "job parameters: ") (validate_safe_json_object job.parameters)
    wrapped (codes "job result: ") (validate_safe_json_object job.result)
    reject_if
        (ltb 128 (length job.error_code)
          || is_secret_field job.error_code
          || ltb 4096 (length job.error_message))
        (invalid (codes "job error is invalid"))

  unfoldable pub validate_audit : AuditEvent → Check Error
  unfolding validate_identifier validate_safe_json_object
  validate_audit event = do
    validate_identifier (codes "installation id") event.installation_id
    validate_identifier (codes "audit id") event.id
    reject_if
        (length event.actor == 0
          || length event.action == 0
          || length event.target_type == 0
          || length event.outcome == 0)
        (invalid (codes "audit event is incomplete"))
    wrapped (codes "audit details: ") (validate_safe_json_object event.details)
