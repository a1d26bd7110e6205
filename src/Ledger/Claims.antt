-- ===== src/Ledger/Claims.antt =====
-- A job runs at most once at a time, and once complete it is answered from the ledger.
use vps_manager.Base.{
  ◌≡◌, ◌≢◌, ◌⊎◌, refl, ◌&&◌, none, some, List, [], ◌∷◌, arith, Time, Text, Table, IsMap, lookup,
  delete, length, ltb, ◌==◌, text_eq, text_eq_iff, text_eq_refl, Option-cases, inl, inr,
  lookup-insert, lookup-delete, Bool-cases, insert-IsMap, delete-IsMap, ◌||◌, if◌then◌else◌,
}
use vps_manager.Ledger.{
  Ledger, LedgerEntry, in_progress, completed, claim_new, claim_replay, claim_conflict,
  claim_in_progress, claim, complete, enter, find_oldest, started, is_completed,
}

pub data Call {ℓ} (Response : Type ℓ) : Type ℓ where
  claims : Text → Text → Time → Call Response
  completes : Text → Text → Response → Call Response

module _ {ℓ} {Response : Type ℓ} where
  unfoldable pub step : Response → Ledger Response → Call Response → Ledger Response
  step zero l (claims job scope now) = (claim zero l job scope now).0
  step zero l (completes job scope response) = complete l job scope response

  unfoldable pub run : Response → Ledger Response → List (Call Response) → Ledger Response
  unfolding step
  run zero l [] = l
  run zero l (c ∷ cs) = run zero (step zero l c) cs

  -- The call does not complete the job in this scope.
  abbrev pub LeavesOpen : Text → Text → Call Response → Type 0
  LeavesOpen job scope (claims _ _ _) = Unit
  LeavesOpen job scope (completes j s _) = (j ≢ job) ⊎ (s ≢ scope)

  abbrev pub AllLeaveOpen : Text → Text → List (Call Response) → Type 0
  AllLeaveOpen job scope [] = Unit
  AllLeaveOpen job scope (c ∷ cs) = LeavesOpen job scope c × AllLeaveOpen job scope cs

  -- The job's entry is completed, and started at the time.
  abbrev pub IsCompletedAt : Table (LedgerEntry Response) → Text × Time → Type ℓ
  IsCompletedAt m best =
      (e : LedgerEntry Response) × (lookup best.0 m ≡ some e)
      × (e.state ≡ completed)
      × (e.started_at ≡ best.1)

  completed-later :
      (m : Table (LedgerEntry Response)) (j : Text) (best : Text × Time) (e : LedgerEntry Response)
      → lookup j m ≡ none
      → IsCompletedAt m best
      → IsCompletedAt ((j, e) ∷ m) best
  unfolding lookup
  completed-later m j best e h (f, at, done, time) =
      (f, ground (arith, text_eq_iff j best.0), done, time)

  -- The search gives what it starts from, or a completed job of the table with its start.
  pub find_oldest-completed :
      (best : Text × Time) (m : Table (LedgerEntry Response))
      → IsMap m
      → (find_oldest best m ≡ best) ⊎ IsCompletedAt m (find_oldest best m)
  unfolding find_oldest
  find_oldest-completed (b, t) [] h = inl refl
  find_oldest-completed (b, t) ((job, e) ∷ m) h =
      elim (Bool-cases (is_completed e.state && (length b == 0 || ltb e.started_at t))) [
        | inl taken ↦
            rw (taken, find_oldest)
              (elim (find_oldest-completed (job, e.started_at) m h.1) [
                | inl same ↦ inr (
                  e,
                  unfold lookup in rw same (ground (arith, text_eq_refl job)),
                  ground arith,
                  rw same refl,
                )
                | inr done ↦ inr (completed-later m job _ e h.0 done)
              ])
        | inr passed ↦
            rw (passed, find_oldest)
              (elim (find_oldest-completed (b, t) m h.1) [
                | inl same ↦ inl same
                | inr done ↦ inr (completed-later m job _ e h.0 done)
              ])
      ]

  -- An open entry of the job stands in a ledger without double keys.
  pub record IsOpenAt (l : Ledger Response) (job : Text) (e : LedgerEntry Response) : Type ℓ where
    pub keys : IsMap l.entries
    pub found : lookup job l.entries ≡ some e
    pub state : e.state ≡ in_progress

  enter-keeps :
      (zero : Response) (l : Ledger Response) (other scope : Text) (now : Time) (job : Text)
      (e : LedgerEntry Response)
      → lookup other l.entries ≡ none
      → IsOpenAt l job e
      → IsOpenAt (enter zero l other scope now).0 job e
  unfolding enter
  enter-keeps zero l other scope now job e free v =
      let found = find_oldest-completed ([], 0) l.entries v.keys in
      let evicted = (find_oldest ([], 0) l.entries).0 in
      let rest = delete evicted l.entries in
      let small = delete-IsMap evicted l.entries v.keys in
      record {
        keys = ground (
          arith,
          insert-IsMap other (started zero scope now) rest small,
          insert-IsMap other (started zero scope now) l.entries v.keys,
          v.keys,
        );
        found = ground (
          arith,
          v.found,
          v.state,
          found,
          lookup-insert other job (started zero scope now) rest,
          lookup-insert other job (started zero scope now) l.entries,
          lookup-delete evicted job l.entries,
          text_eq_iff other job,
          text_eq_iff evicted job,
        );
        state = v.state;
      }

  complete-keeps :
      (l : Ledger Response) (other scope : Text) (response : Response) (job : Text)
      (e : LedgerEntry Response)
      → (other ≢ job) ⊎ (scope ≢ e.scope)
      → IsOpenAt l job e
      → IsOpenAt (complete l other scope response) job e
  unfolding complete
  complete-keeps l other scope response job e differs v =
      elim (Option-cases (lookup other l.entries)) [
        | inl none_there ↦ rw (none_there, complete) v
        | inr (f, there) ↦
            let closed = record f { state = completed; response = response } in
            record {
              keys = ground (arith, v.keys, insert-IsMap other closed l.entries v.keys);
              found = ground (
                arith,
                v.found,
                differs,
                lookup-insert other job closed l.entries,
                text_eq_iff other job,
                text_eq_iff f.scope scope,
              );
              state = v.state;
            }
      ]

  claim-keeps :
      (zero : Response) (l : Ledger Response) (other scope : Text) (now : Time) (job : Text)
      (e : LedgerEntry Response)
      → IsOpenAt l job e
      → IsOpenAt (claim zero l other scope now).0 job e
  unfolding claim
  claim-keeps zero l other scope now job e v = elim (Option-cases (lookup other l.entries)) [
    | inl free ↦ rw (free, claim) (enter-keeps zero l other scope now job e free v)
    | inr (f, there) ↦ rw (there, claim) v
  ]

  run-keeps :
      (zero : Response) (l : Ledger Response) (cs : List (Call Response)) (job : Text)
      (e : LedgerEntry Response)
      → AllLeaveOpen job e.scope cs
      → IsOpenAt l job e
      → IsOpenAt (run zero l cs) job e
  unfolding run
  run-keeps zero l [] job e h v = v
  run-keeps zero l (claims other scope now ∷ cs) job e h v =
      run-keeps zero (claim zero l other scope now).0 cs job e h.1
        (claim-keeps zero l other scope now job e v)
  run-keeps zero l (completes other scope response ∷ cs) job e h v =
      run-keeps zero (complete l other scope response) cs job e h.1
        (complete-keeps l other scope response job e h.0 v)

  -- A job that was claimed as new has an open entry of its scope.
  pub claim-open :
      (zero : Response) (l : Ledger Response) (job scope : Text) (now : Time)
      → IsMap l.entries
      → (claim zero l job scope now).1.0 ≡ claim_new
      → IsOpenAt (claim zero l job scope now).0 job (started zero scope now)
  unfolding claim enter
  claim-open zero l job scope now keys h =
      let evicted = (find_oldest ([], 0) l.entries).0 in
      let rest = delete evicted l.entries in
      let small = delete-IsMap evicted l.entries keys in
      record {
        keys = ground (
          arith,
          insert-IsMap job (started zero scope now) rest small,
          insert-IsMap job (started zero scope now) l.entries keys,
        );
        found = ground (
          arith,
          text_eq_refl job,
          lookup-insert job job (started zero scope now) rest,
          lookup-insert job job (started zero scope now) l.entries,
        );
        state = refl;
      }

  module _ (zero : Response) (l : Ledger Response) (job scope : Text) (start : Time)
      (keys : IsMap l.entries) (new : (claim zero l job scope start).1.0 ≡ claim_new)
      (cs : List (Call Response)) (opened : AllLeaveOpen job scope cs) where
    kept : IsOpenAt (run zero (claim zero l job scope start).0 cs) job (started zero scope start)
    kept =
        run-keeps zero (claim zero l job scope start).0 cs job (started zero scope start) opened
          (claim-open zero l job scope start keys new)

    -- At most one execution: from a claim that was granted until its scope is completed, after any
    -- claims and completions, of this job or others, another claim of the job is answered as in
    -- progress, or as a conflict if its scope differs. It is never granted.
    pub claim_exclusive :
        (other : Text) (now : Time)
        → (claim zero (run zero (claim zero l job scope start).0 cs) job other now).1.0
          ≡ (if text_eq scope other then claim_in_progress else claim_conflict)
    unfolding claim
    claim_exclusive other now = let v = kept in ground (arith, v.found)

    -- Once completed, a claim of the same scope is answered with the response, and not executed.
    pub complete_replays :
        (response : Response) (now : Time)
        → (claim zero
            (complete (run zero (claim zero l job scope start).0 cs) job scope response)
            job
            scope
            now).1
          ≡ (claim_replay, response)
    unfolding claim complete
    complete_replays response now =
        let v = kept in
        let l' = run zero (claim zero l job scope start).0 cs in
        ground (
          arith,
          v.found,
          text_eq_refl job,
          text_eq_refl scope,
          lookup-insert job job
              (record (started zero scope start) { state = completed; response = response })
              l'.entries,
        )
