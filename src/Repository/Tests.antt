-- ===== src/Repository/Tests.antt =====
-- A repository with an asset and an event, and the theorems at it.
use vps_manager.Base.{
  lower, ℕ, ◌≡◌, refl, false, Option, none, some, List, [], ◌∷◌, pos, Text, codes, ok, err,
  trim_space, text_eq, text_lt, sort_by, inl, lookup, insert, delete,
}
use vps_manager.Encoding.Decimal.{itoa}
use vps_manager.Coordinator.Validation.{matches_identifier}
use vps_manager.Repository.Types.{Asset, AuditEvent, AuditFilter, conflict, normalize_limit}
use vps_manager.Repository.Secrets.{
  Json, scalar, object, member, end, is_secret_field, contains_secret_field, HasKey,
  HasDistinctKeys,
}
use vps_manager.Repository.Validation.{
  validate_asset, validate_audit, validate_identifier, validate_safe_json, accepted_has_no_secret,
}
use vps_manager.Repository.Keys.{composite}
use vps_manager.Repository.{
  MemoryRepository, new_memory_repository, create_asset, update_asset, delete_asset, list_assets,
  append_audit, list_audit,
}
use vps_manager.Repository.Assets.{
  Call, step, creates, updates, deletes, view, run, run_spec, assets_refine,
}
use vps_manager.Repository.Audits.{append_all}

abbrev web : Asset
web = record {
  installation_id = codes "i1";
  id = codes "a1";
  name = codes "web";
  address = codes "10.0.0.1";
  port = pos 22;
  username = codes "root";
  labels = [];
  host_key = none;
  version = 1;
  created_at = 5;
  updated_at = 5;
}

abbrev renamed : Asset
renamed = record web { name = codes "www"; version = 2 }

abbrev one_asset : MemoryRepository
one_asset = (create_asset new_memory_repository web).0

abbrev calls : List Call
calls = creates web ∷ updates renamed 1 ∷ deletes (codes "i1") (codes "a1") 1 ∷ []

assets_refine_example :
    (view (run new_memory_repository calls).0 ≡ (run_spec (view new_memory_repository) calls).0)
    × ((run new_memory_repository calls).1 ≡ (run_spec (view new_memory_repository) calls).1)
assets_refine_example = assets_refine new_memory_repository calls

run_test : (run new_memory_repository calls).1 ≡ ok tt ∷ ok tt ∷ err conflict ∷ []
unfolding run text_eq validate_asset create_asset update_asset composite lookup insert itoa
    trim_space matches_identifier step delete_asset delete
run_test = refl

updated_once : update_asset one_asset renamed 1 ≡ ((update_asset one_asset renamed 1).0, ok tt)
unfolding text_eq validate_asset create_asset update_asset composite lookup insert itoa trim_space
    matches_identifier
updated_once = refl

valid_renamed : validate_asset (record renamed { name = codes "other" }) ≡ ok tt
unfolding validate_asset trim_space matches_identifier
valid_renamed = refl

abbrev filed : MemoryRepository
filed = (run new_memory_repository (creates web ∷ [])).0

listed_web : list_assets filed (codes "i1") (pos 10) [] ≡ ok (web ∷ [])
unfolding run list_assets text_eq text_lt validate_asset validate_identifier create_asset composite
    lookup insert itoa trim_space sort_by normalize_limit matches_identifier step delete_asset
    delete
listed_web = refl

abbrev safe_payload : Json
safe_payload = object (member (codes "unit") (scalar (codes "nginx")) end)

abbrev decode_one : Text → Option Json
decode_one raw = some safe_payload

accepted : validate_safe_json decode_one (codes "{}") ≡ ok tt
unfolding validate_safe_json contains_secret_field is_secret_field text_eq lower
accepted = refl

accepted_has_no_secret_example : is_secret_field (codes "unit") ≡ false
unfolding HasKey HasDistinctKeys
accepted_has_no_secret_example =
    accepted_has_no_secret decode_one decode_one (λ raw tree d distinct. d) (codes "{}")
      (codes "unit") safe_payload accepted refl refl (refl, (tt, tt)) (inl refl)

abbrev event_at : ℕ → Text → AuditEvent
event_at t id = record {
  installation_id = codes "i1";
  id = id;
  timestamp = t;
  actor = codes "alice";
  role = codes "operator";
  action = codes "job.create";
  target_type = codes "job";
  target_id = [];
  outcome = codes "ok";
  request_id = [];
  job_id = [];
  details = [];
}

abbrev events : List AuditEvent
events = event_at 3 (codes "e1") ∷ event_at 4 (codes "e2") ∷ event_at 4 (codes "e2") ∷ []

abbrev after_second : AuditFilter
after_second = record {
  installation_id = codes "i1";
  before = 4;
  before_id = codes "e2";
  limit = pos 0;
}

abbrev logged : MemoryRepository
logged = append_all decode_one new_memory_repository events

older : list_audit logged after_second ≡ ok (event_at 3 (codes "e1") ∷ [])
unfolding append_all append_audit list_audit text_eq text_lt validate_identifier sort_by
    normalize_limit matches_identifier validate_audit
older = refl
