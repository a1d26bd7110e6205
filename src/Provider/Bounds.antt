-- ===== src/Provider/Bounds.antt =====
-- services/cloudflareprovider/idempotency.go: the entries are bounded.
use vps_manager.Base.{
  ℕ, ◌≤◌, ◌≡◌, refl, ap, inl, inr, some, List, [], ◌∷◌, arith, Time, Text, lookup, insert, length,
  length-delete-lt, length-insert-le, IsMap, insert-IsMap, delete-IsMap, Option-cases, Result,
  Result-cases, ok,
}
use vps_manager.Provider.{Client, make_room, new_entry, begin, finish}
use vps_manager.Provider.Executions.{make_room-cases, make_room-IsMap, Found-lookup}
use vps_manager.Provider.Histories.{Event, begins, finishes, step, run}

module _ {E V : Type 0} where
  abbrev pub IsWithin : ℕ → Client E V → Type 0
  IsWithin max c = (c.max_idem_entries ≡ max) × (length c.idem ≤ max) × IsMap c.idem

  pub begin-IsWithin :
      (max : ℕ) (c : Client E V) (k f : Text) (t : Time)
      → IsWithin max c
      → IsWithin max (begin c k f t).0
  unfolding begin
  begin-IsWithin max c k f t b = elim (Option-cases (lookup k c.idem)) [
    | inr (e, there) ↦ rw (there, begin) b
    | inl gone ↦ elim (Option-cases (make_room c)) [
      | inl tight ↦ rw (gone, begin) (rw tight b)
      | inr (r, roomy) ↦
          let m = insert-IsMap k (new_entry f t) r.idem (make_room-IsMap c r b.2 roomy) in
          let larger = length-insert-le k (new_entry f t) r.idem in
          rw (gone, begin)
            (rw roomy (elim (make_room-cases c r roomy) [
              | inl (same, room) ↦ (
                ground (arith, same, b.0),
                omega (arith, larger, ap (λ x. length x.idem) same, room, b.0),
                m,
              )
              | inr (j, e, found, d, cut) ↦ (
                ground (arith, cut, b.0),
                omega (
                  arith,
                  larger,
                  ap (λ x. length x.idem) cut,
                  length-delete-lt j e c.idem (Found-lookup j e c.idem b.2 found),
                  b.1,
                ),
                m,
              )
            ]))
    ]
  ]

  finish-IsWithin :
      (max : ℕ) (c : Client E V) (k : Text) (result : Result E V)
      → IsWithin max c
      → IsWithin max (finish c k result)
  unfolding finish insert
  finish-IsWithin max c k result b = elim (Option-cases (lookup k c.idem)) [
    | inl gone ↦ rw (gone, finish) b
    | inr (e, there) ↦
        let smaller = length-delete-lt k e c.idem there in
        elim (Result-cases result) [
          | inl (v, fine) ↦
              rw (there, finish)
                (rw fine (
                  b.0,
                  omega (arith, smaller, b.1),
                  insert-IsMap k (record e { done = some (ok v) }) c.idem b.2,
                ))
          | inr (x, bad) ↦
              rw (there, finish)
                (rw bad (b.0, omega (arith, smaller, b.1), delete-IsMap k c.idem b.2))
        ]
  ]

  pub within :
      (max : ℕ) (c : Client E V) (es : List (Event E V)) → IsWithin max c → IsWithin max (run c es)
  unfolding run step
  within max c [] b = b
  within max c (begins k f t ∷ es) b =
      within max (step c (begins k f t)) es (begin-IsWithin max c k f t b)
  within max c (finishes k result ∷ es) b =
      within max (step c (finishes k result)) es (finish-IsWithin max c k result b)

  -- The entries are bounded: whatever calls a new client gets, it never has more entries than its
  -- maximum, and each key once.
  pub run-IsWithin :
      (max : ℕ) (es : List (Event E V))
      → IsWithin max (run (record { idem = []; max_idem_entries = max }) es)
  run-IsWithin max es =
      within max (record { idem = []; max_idem_entries = max }) es (refl, omega arith, tt)
