-- ===== src/Provider/Histories.antt =====
-- services/cloudflareprovider/idempotency.go: no operation is executed twice at a time.
use vps_manager.Base.{
  ◌≡◌, ◌≢◌, inl, inr, List, [], ◌∷◌, arith, Time, Text, lookup, text_eq, text_eq_refl,
  lookup-insert, IsMap, insert-IsMap, Option-cases, Result, if◌then◌else◌,
}
use vps_manager.Provider.{
  Client, conflicts, executes, waits, make_room, enter, new_entry, begin, finish,
}
use vps_manager.Provider.Executions.{IsPending, make_room-IsMap, begin-IsPending, finish-IsPending}

-- What calls do with the client's entries: one begins, or one that executes finishes.
pub data Event (E V : Type 0) : Type 0 where
  begins : Text → Text → Time → Event E V
  finishes : Text → Result E V → Event E V

module _ {E V : Type 0} where
  unfoldable pub step : Client E V → Event E V → Client E V
  step c (begins key fingerprint now) = (begin c key fingerprint now).0
  step c (finishes key result) = finish c key result

  unfoldable pub run : Client E V → List (Event E V) → Client E V
  unfolding step
  run c [] = c
  run c (e ∷ es) = run (step c e) es

  -- No call of the key finishes.
  abbrev pub IsOpen : Text → List (Event E V) → Type 0
  IsOpen key [] = Unit
  IsOpen key (begins k f t ∷ es) = IsOpen key es
  IsOpen key (finishes k result ∷ es) = (k ≢ key) × IsOpen key es

  pub run-IsPending :
      (key fingerprint : Text) (now : Time) (c : Client E V) (es : List (Event E V))
      → IsOpen key es
      → IsPending key fingerprint now c
      → IsPending key fingerprint now (run c es)
  unfolding run step
  run-IsPending key fingerprint now c [] opened p = p
  run-IsPending key fingerprint now c (begins k f t ∷ es) opened p =
      run-IsPending key fingerprint now (step c (begins k f t)) es opened
        (begin-IsPending key fingerprint now c k f t p)
  run-IsPending key fingerprint now c (finishes k result ∷ es) opened p =
      run-IsPending key fingerprint now (step c (finishes k result)) es opened.1
        (finish-IsPending key fingerprint now c k result opened.0 p)

  pub begun-IsPending :
      (c w : Client E V) (key fingerprint : Text) (now : Time)
      → IsMap c.idem
      → begin c key fingerprint now ≡ (w, executes)
      → IsPending key fingerprint now w
  unfolding begin
  begun-IsPending c w key fingerprint now m h = elim (Option-cases (lookup key c.idem)) [
    | inr (e, there) ↦ absurd (ground (arith, h, there))
    | inl gone ↦ elim (Option-cases (make_room c)) [
      | inl tight ↦ absurd (ground (arith, h, gone, tight))
      | inr (r, roomy) ↦
          let made : w ≡ enter r key fingerprint now = ground (arith, h, gone, roomy) in
          rw made (
            insert-IsMap key (new_entry fingerprint now) r.idem (make_room-IsMap c r m roomy),
            ground
                (arith, lookup-insert key key (new_entry fingerprint now) r.idem, text_eq_refl key),
          )
    ]
  ]

  -- No operation is executed twice at a time: while a call executes, whatever other calls do, its entry
  -- is not evicted, and a call of the same key does not execute: with the same fingerprint it waits for
  -- the first one, with another it is a conflict.
  pub never_executed_twice :
      (c w : Client E V) (key fingerprint fingerprint' : Text) (now now' : Time)
      (es : List (Event E V))
      → IsMap c.idem
      → begin c key fingerprint now ≡ (w, executes)
      → IsOpen key es
      → (begin (run w es) key fingerprint' now').1 ≡ (
          if text_eq fingerprint fingerprint' then waits (new_entry fingerprint now) else conflicts)
  unfolding begin
  never_executed_twice c w key fingerprint fingerprint' now now' es m h opened =
      let p =
        run-IsPending key fingerprint now w es opened
          (begun-IsPending c w key fingerprint now m h) in
      rw (p.1, begin) (ground arith)
