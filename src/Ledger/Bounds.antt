-- ===== src/Ledger/Bounds.antt =====
-- The ledger holds at most `max` entries, and evicts the oldest completed one.
use vps_manager.Base.{
  ◌≤◌, ◌<◌, ◌≡◌, true, none, some, List, [], ◌∷◌, arith, Time, Text, Table, IsMap, lookup, insert,
  delete, length, leb, Option-cases, inl, inr, insert-IsMap, delete-IsMap, length-insert-le,
  length-delete-lt,
}
use vps_manager.Ledger.{
  Ledger, LedgerEntry, completed, claim_new, claim, complete, enter, find_oldest, started,
}
use vps_manager.Ledger.Claims.{Call, claims, completes, step, run, find_oldest-completed}

module _ {ℓ} {Response : Type ℓ} where
  pub record IsBounded (l : Ledger Response) : Type ℓ where
    pub within : length l.entries ≤ l.max
    pub keys : IsMap l.entries

  claim-IsBounded :
      (zero : Response) (l : Ledger Response) (job scope : Text) (now : Time)
      → IsBounded l
      → IsBounded (claim zero l job scope now).0
  unfolding claim enter
  claim-IsBounded zero l job scope now v =
      let evicted = (find_oldest ([], 0) l.entries).0 in
      let rest = delete evicted l.entries in
      let small = delete-IsMap evicted l.entries v.keys in
      record {
        within = elim (find_oldest-completed ([], 0) l.entries v.keys) [
          | inl same ↦
              ground
                (arith, v.within, same, length-insert-le job (started zero scope now) l.entries)
          | inr (e, there, done, time) ↦ ground (
            arith,
            v.within,
            length-insert-le job (started zero scope now) l.entries,
            length-insert-le job (started zero scope now) rest,
            length-delete-lt evicted e l.entries there,
          )
        ];
        keys = ground (
          arith,
          insert-IsMap job (started zero scope now) rest small,
          insert-IsMap job (started zero scope now) l.entries v.keys,
          v.keys,
        );
      }

  complete-IsBounded :
      (l : Ledger Response) (job scope : Text) (response : Response)
      → IsBounded l
      → IsBounded (complete l job scope response)
  unfolding complete insert
  complete-IsBounded l job scope response v = elim (Option-cases (lookup job l.entries)) [
    | inl free ↦ rw (free, complete) v
    | inr (e, there) ↦
        let closed = record e { state = completed; response = response } in
        ground (
          arith,
          v.within,
          length-delete-lt job e l.entries there,
          insert-IsMap job closed l.entries v.keys,
        )
  ]

  -- Whatever is claimed and completed, the ledger keeps to its size, with one entry for each job.
  pub run-IsBounded :
      (zero : Response) (l : Ledger Response) (cs : List (Call Response))
      → IsBounded l
      → IsBounded (run zero l cs)
  unfolding run step
  run-IsBounded zero l [] v = v
  run-IsBounded zero l (claims job scope now ∷ cs) v =
      run-IsBounded zero (claim zero l job scope now).0 cs (claim-IsBounded zero l job scope now v)
  run-IsBounded zero l (completes job scope response ∷ cs) v =
      run-IsBounded zero (complete l job scope response) cs
        (complete-IsBounded l job scope response v)

  -- No entry stands under the empty job.
  abbrev pub HasJobs : Table (LedgerEntry Response) → Type 0
  HasJobs [] = Unit
  HasJobs ((job, e) ∷ m) = (0 < length job) × HasJobs m

  find_oldest-le_start :
      (b : Text) (t : Time) (m : Table (LedgerEntry Response))
      → HasJobs m
      → 0 < length b
      → (find_oldest (b, t) m).1 ≤ t
  unfolding find_oldest
  find_oldest-le_start b t [] h n = omega arith
  find_oldest-le_start b t ((job, e) ∷ m) h n =
      ground
        (arith, find_oldest-le_start job e.started_at m h.1 h.0, find_oldest-le_start b t m h.1 n)

  find_oldest-le :
      (b : Text) (t : Time) (m : Table (LedgerEntry Response)) (j : Text) (f : LedgerEntry Response)
      → HasJobs m
      → lookup j m ≡ some f
      → f.state ≡ completed
      → (find_oldest (b, t) m).1 ≤ f.started_at
  unfolding find_oldest lookup
  find_oldest-le b t [] j f h at done = cc
  find_oldest-le b t ((job, e) ∷ m) j f h at done = ground (
    arith,
    find_oldest-le_start job e.started_at m h.1 h.0,
    find_oldest-le_start b t m h.1,
    find_oldest-le job e.started_at m j f h.1,
    find_oldest-le b t m j f h.1,
  )

  -- A job that is entered into a full ledger takes the place of one completed job, and no completed
  -- job started before that one.
  pub evicts_oldest :
      (zero : Response) (l : Ledger Response) (job scope : Text) (now : Time)
      → IsMap l.entries
      → HasJobs l.entries
      → leb l.max (length l.entries) ≡ true
      → lookup job l.entries ≡ none
      → (claim zero l job scope now).1.0 ≡ claim_new
      → (old : Text) × (e : LedgerEntry Response) × (lookup old l.entries ≡ some e)
        × (e.state ≡ completed)
        × ((claim zero l job scope now).0.entries
            ≡ insert job (started zero scope now) (delete old l.entries))
        × ((j : Text) (f : LedgerEntry Response)
            → lookup j l.entries ≡ some f
            → f.state ≡ completed
            → e.started_at ≤ f.started_at)
  unfolding claim enter
  evicts_oldest zero l job scope now keys jobs full free new =
      elim (find_oldest-completed ([], 0) l.entries keys) [
        | inl same ↦ absurd (ground (arith, same))
        | inr (e, there, done, time) ↦ (
          (find_oldest ([], 0) l.entries).0,
          e,
          there,
          done,
          ground arith,
          λ j f at closed. omega (arith, find_oldest-le [] 0 l.entries j f jobs at closed, time),
        )
      ]
