-- ===== src/Repository/Audits.antt =====
-- The audit log of the repository.
use vps_manager.Base.{
  ◌≤◌, ◌≡◌, refl, sym, ap, ◌∙◌, Bool, true, false, ◌||◌, Option, List, [], ◌∷◌, ◌++◌, arith, Text,
  codes, any_of, text_eq_iff, text_eq_sym, text_lt-asym, text_lt-cotrans, ok, inl, inr, Bool-cases,
  Result-cases, All, All-map, keep_if, keep_if-All, sort_by, sort_by-All, sort_by-Sorted, Sorted,
  take, take-All, take-Sorted, length, length-take-le, ◌==◌,
}
use mathlib.Core.List.{append-nil, append_assoc}
use vps_manager.Repository.Types.{AuditEvent, AuditFilter, normalize_limit}
use vps_manager.Repository.Secrets.{Json}
use vps_manager.Repository.Validation.{validate_audit, validate_identifier}
use vps_manager.Repository.{
  MemoryRepository, append_audit, list_audit, is_same_event, on_page, newer,
}

-- No two events have the same installation and id.
abbrev pub IsUnique : List AuditEvent → Type 0
IsUnique [] = Unit
IsUnique (event ∷ events) = (any_of (is_same_event event) events ≡ false) × IsUnique events

append-any :
    (p : AuditEvent → Bool) (xs : List AuditEvent) (y : AuditEvent)
    → any_of p (xs ++ y ∷ []) ≡ any_of p xs || p y
append-any p [] y = ground arith
append-any p (x ∷ xs) y = ground (arith, append-any p xs y)

append-IsUnique :
    (events : List AuditEvent) (event : AuditEvent)
    → any_of (is_same_event event) events ≡ false
    → IsUnique events
    → IsUnique (events ++ event ∷ [])
append-IsUnique [] event h u = (refl, tt)
append-IsUnique (x ∷ xs) event h u = (
  ground (
    arith,
    append-any (is_same_event x) xs event,
    text_eq_sym x.installation_id event.installation_id,
    text_eq_sym x.id event.id,
  ),
  append-IsUnique xs event (ground arith) u.1,
)

module _ (decode : Text → Option Json) where
  -- Events are appended one after the other.
  unfoldable pub append_all : MemoryRepository → List AuditEvent → MemoryRepository
  append_all r [] = r
  append_all r (event ∷ events) = append_all (append_audit decode r event).0 events

  append_step :
      (r : MemoryRepository) (event : AuditEvent)
      → IsUnique r.audits
      → (more : List AuditEvent) × ((append_audit decode r event).0.audits ≡ r.audits ++ more)
        × IsUnique (append_audit decode r event).0.audits
  unfolding append_audit
  append_step r event u = elim (Result-cases (validate_audit decode event)) [
    | inr (e, no_) ↦ rw no_ ([], sym (append-nil r.audits), u)
    | inl (v, yes_) ↦ elim (Bool-cases (any_of (is_same_event event) r.audits)) [
      | inl seen ↦ rw (yes_, seen) ([], sym (append-nil r.audits), u)
      | inr new ↦ rw (yes_, new) (event ∷ [], refl, append-IsUnique r.audits event new u)
    ]
  ]

  -- Appending events, whatever they are, keeps the log as it was at the front of the new log, and no
  -- two events of it have the same installation and id if none had before.
  pub audit_appends :
      (r : MemoryRepository) (events : List AuditEvent)
      → IsUnique r.audits
      → (more : List AuditEvent) × ((append_all r events).audits ≡ r.audits ++ more)
        × IsUnique (append_all r events).audits
  unfolding append_all
  audit_appends r [] u = ([], sym (append-nil r.audits), u)
  audit_appends r (event ∷ events) u =
      let s = append_step r event u in
      let ih = audit_appends (append_audit decode r event).0 events s.2 in
      (s.0 ++ ih.0, ih.1 ∙ ap (λ l. l ++ ih.0) s.1 ∙ append_assoc r.audits s.0 ih.0, ih.2)

newer-asym : (x y : AuditEvent) → newer x y ≡ true → newer y x ≡ false
newer-asym x y h = ground (arith, text_lt-asym y.id x.id)

newer-cotrans : (x y z : AuditEvent) → newer z y ≡ false → newer y x ≡ false → newer z x ≡ false
newer-cotrans x y z h g = ground (arith, text_lt-cotrans z.id y.id x.id)

abbrev page : MemoryRepository → AuditFilter → Text → List AuditEvent
page r filter before_id =
    take (normalize_limit filter.limit)
      (sort_by newer (keep_if (on_page filter before_id) r.audits))

is_page :
    (r : MemoryRepository) (filter : AuditFilter) (items : List AuditEvent)
    → (length filter.before_id == 0) ≡ false
    → list_audit r filter ≡ ok items
    → items ≡ page r filter filter.before_id
unfolding list_audit
is_page r filter items b h =
    elim (Result-cases (validate_identifier (codes "installation id") filter.installation_id)) [
      | inr (e, no_) ↦ ground (arith, h, no_)
      | inl (u, yes_) ↦
          elim (Result-cases (validate_identifier (codes "audit cursor id") filter.before_id)) [
            | inr (e, no_) ↦ ground (arith, h, b, yes_, no_)
            | inl (v, good) ↦ ground (arith, h, b, yes_, good)
          ]
    ]

-- What an event of the page behind an event is: of the same installation, and older.
abbrev pub IsBehind : AuditEvent → AuditEvent → Type 0
IsBehind cursor event =
    (event.installation_id ≡ cursor.installation_id) × (newer cursor event ≡ true)

behind :
    (cursor : AuditEvent) (filter : AuditFilter) (event : AuditEvent)
    → filter.installation_id ≡ cursor.installation_id
    → filter.before ≡ cursor.timestamp
    → filter.before_id ≡ cursor.id
    → (cursor.timestamp == 0) ≡ false
    → on_page filter filter.before_id event ≡ true
    → IsBehind cursor event
behind cursor filter event i t j z p = (
  ground (arith, text_eq_iff event.installation_id filter.installation_id),
  rw (sym t, sym j) (ground (arith, t, z, p)),
)

-- A listing from an event on, whose time and id are the filter's, gives the events of that
-- installation alone and only older ones, the newest first, and no more than the limit.
pub next_page :
    (r : MemoryRepository) (cursor : AuditEvent) (filter : AuditFilter) (items : List AuditEvent)
    → filter.installation_id ≡ cursor.installation_id
    → filter.before ≡ cursor.timestamp
    → filter.before_id ≡ cursor.id
    → (cursor.timestamp == 0) ≡ false
    → (length cursor.id == 0) ≡ false
    → list_audit r filter ≡ ok items
    → All (IsBehind cursor) items
      × Sorted newer items
      × (length items ≤ normalize_limit filter.limit)
next_page r cursor filter items i t j z b h =
    let n = normalize_limit filter.limit in
    let on : AuditEvent → Bool = on_page filter filter.before_id in
    let kept : List AuditEvent = keep_if on r.audits in
    let named : (length filter.before_id == 0) ≡ false = rw j b in
    rw (is_page r filter items named h) (
      take-All (IsBehind cursor) n (sort_by newer kept) (
          sort_by-All (IsBehind cursor) newer kept (
            All-map (λ e. on e ≡ true) (IsBehind cursor) kept
              (λ e p. behind cursor filter e i t j z p) (keep_if-All on r.audits))),
      take-Sorted newer newer-asym newer-cotrans n (sort_by newer kept)
          (sort_by-Sorted newer newer-asym newer-cotrans kept),
      length-take-le n (sort_by newer kept),
    )
