-- ===== src/Provider/Executions.antt =====
-- services/cloudflareprovider/idempotency.go: the entry of a call stays while the call is in flight.
use vps_manager.Base.{
  ◌<◌, ◌≡◌, ◌≢◌, ◌⊎◌, ◌&&◌, inl, inr, true, Option, none, some, [], ◌∷◌, arith, Time, Text, Table,
  lookup, delete, length, ltb, leb, text_eq_iff, lookup-insert, lookup-delete, IsMap, insert-IsMap,
  delete-IsMap, Found, Bool-cases, Option-cases, Result, Result-cases, ok,
}
use vps_manager.Provider.{
  IdempotencyEntry, Client, is_done, older, find_oldest, evict_oldest_completed, make_room,
  new_entry, begin, finish,
}

module _ {E V : Type 0} where
  pub Found-lookup :
      (k : Text) (e : IdempotencyEntry E V) (m : Table (IdempotencyEntry E V))
      → IsMap m
      → Found k e m
      → lookup k m ≡ some e
  unfolding lookup
  Found-lookup k e [] h f = absurd f
  Found-lookup k e ((j, d) ∷ m) h (inl (same, it)) = ground (arith, text_eq_iff j k, same, it)
  Found-lookup k e ((j, d) ∷ m) h (inr there) =
      let later = Found-lookup k e m h.1 there in ground (arith, text_eq_iff j k, h.0, later)

  -- What the search gives is what it had, or an entry of the table that is done.
  find_oldest-done :
      (best : Option (Text × IdempotencyEntry E V)) (m : Table (IdempotencyEntry E V)) (k : Text)
      (e : IdempotencyEntry E V)
      → find_oldest best m ≡ some (k, e)
      → (best ≡ some (k, e)) ⊎ (Found k e m × (is_done e ≡ true))
  unfolding find_oldest
  find_oldest-done best [] k e h = inl h
  find_oldest-done none ((j, d) ∷ m) k e h = elim (find_oldest-done (older none j d) m k e h) [
    | inl was ↦ elim (Bool-cases (is_done d)) [
      | inl t ↦ inr (inl (ground (arith, was, t), ground (arith, was, t)), ground (arith, was, t))
      | inr f ↦ absurd (ground (arith, was, f))
    ]
    | inr (there, t) ↦ inr (inr there, t)
  ]
  find_oldest-done (some (i, b)) ((j, d) ∷ m) k e h =
      elim (find_oldest-done (older (some (i, b)) j d) m k e h) [
        | inl was ↦ elim (Bool-cases (is_done d && ltb d.created_at b.created_at)) [
          | inl t ↦
              inr (inl (ground (arith, was, t), ground (arith, was, t)), ground (arith, was, t))
          | inr f ↦ inl (ground (arith, was, f))
        ]
        | inr (there, t) ↦ inr (inr there, t)
      ]

  -- Room is made by taking out an entry that is done.
  pub make_room-cases :
      (c r : Client E V)
      → make_room c ≡ some r
      → ((r ≡ c) × (length c.idem < c.max_idem_entries))
        ⊎ ((k : Text) × (e : IdempotencyEntry E V) × Found k e c.idem
            × (is_done e ≡ true)
            × (r ≡ record c { idem = delete k c.idem }))
  unfolding make_room evict_oldest_completed
  make_room-cases c r h = elim (Bool-cases (leb c.max_idem_entries (length c.idem))) [
    | inr room ↦ inl (ground (arith, h, room), ground (arith, room))
    | inl tight ↦ elim (Option-cases (find_oldest none c.idem)) [
      | inl nothing ↦ absurd (ground (arith, h, tight, nothing))
      | inr ((k, e), there) ↦ elim (find_oldest-done none c.idem k e there) [
        | inl impossible ↦ cc
        | inr (found, t) ↦ inr (k, e, found, t, ground (arith, h, tight, there))
      ]
    ]
  ]

  -- The entry of a call that has begun and not finished.
  abbrev pub IsPending : Text → Text → Time → Client E V → Type 0
  IsPending key fingerprint now c =
      IsMap c.idem × (lookup key c.idem ≡ some (new_entry fingerprint now))

  pub make_room-IsMap : (c r : Client E V) → IsMap c.idem → make_room c ≡ some r → IsMap r.idem
  make_room-IsMap c r m h = elim (make_room-cases c r h) [
    | inl (same, room) ↦ rw same m
    | inr (k, e, found, t, cut) ↦ rw cut (delete-IsMap k c.idem m)
  ]

  make_room-IsPending :
      (key fingerprint : Text) (now : Time) (c r : Client E V)
      → IsPending key fingerprint now c
      → make_room c ≡ some r
      → IsPending key fingerprint now r
  make_room-IsPending key fingerprint now c r p h = elim (make_room-cases c r h) [
    | inl (same, room) ↦ rw same p
    | inr (k, e, found, t, cut) ↦
        let there = Found-lookup k e c.idem p.0 found in
        let other : k ≢ key = λ same. ground (arith, there, p.1, t, same) in
        rw cut (
          delete-IsMap k c.idem p.0,
          ground (arith, lookup-delete k key c.idem, text_eq_iff k key, p.1),
        )
  ]

  pub begin-IsPending :
      (key fingerprint : Text) (now : Time) (c : Client E V) (k f : Text) (t : Time)
      → IsPending key fingerprint now c
      → IsPending key fingerprint now (begin c k f t).0
  unfolding begin
  begin-IsPending key fingerprint now c k f t p = elim (Option-cases (lookup k c.idem)) [
    | inr (e, there) ↦ rw (there, begin) p
    | inl gone ↦ elim (Option-cases (make_room c)) [
      | inl tight ↦ rw (gone, begin) (rw tight p)
      | inr (r, roomy) ↦
          let q = make_room-IsPending key fingerprint now c r p roomy in
          rw (gone, begin)
            (rw roomy (
              insert-IsMap k (new_entry f t) r.idem q.0,
              ground (
                arith,
                lookup-insert k key (new_entry f t) r.idem,
                text_eq_iff k key,
                q.1,
                p.1,
                gone,
              ),
            ))
    ]
  ]

  pub finish-IsPending :
      (key fingerprint : Text) (now : Time) (c : Client E V) (k : Text) (result : Result E V)
      → k ≢ key
      → IsPending key fingerprint now c
      → IsPending key fingerprint now (finish c k result)
  unfolding finish
  finish-IsPending key fingerprint now c k result other p = elim (Option-cases (lookup k c.idem)) [
    | inl gone ↦ rw (gone, finish) p
    | inr (e, there) ↦ elim (Result-cases result) [
      | inl (v, fine) ↦
          rw (there, finish)
            (rw fine (
              insert-IsMap k (record e { done = some (ok v) }) c.idem p.0,
              ground (
                arith,
                lookup-insert k key (record e { done = some (ok v) }) c.idem,
                text_eq_iff k key,
                p.1,
              ),
            ))
      | inr (b, bad) ↦
          rw (there, finish)
            (rw bad (
              delete-IsMap k c.idem p.0,
              ground (arith, lookup-delete k key c.idem, text_eq_iff k key, p.1),
            ))
    ]
  ]
