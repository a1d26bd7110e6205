-- ===== src/Provider/Answers.antt =====
-- services/cloudflareprovider/idempotency.go: what is done is answered again.
use vps_manager.Base.{
  ℕ, ◌<◌, ◌≡◌, ap, inl, inr, none, some, List, arith, Time, Text, lookup, delete, length,
  text_eq_refl, lookup-insert, lookup-delete, length-delete-lt, Result, Result-cases, ok, err,
}
use vps_manager.Provider.{Client, Begun, executes, waits, make_room, new_entry, begin, finish}
use vps_manager.Provider.Executions.{IsPending}
use vps_manager.Provider.Histories.{Event, run, IsOpen, run-IsPending, begun-IsPending}
use vps_manager.Provider.Bounds.{IsWithin, within, begin-IsWithin}

module _ {E V : Type 0} where
  answered :
      (c : Client E V) (key fingerprint : Text) (now now' : Time) (v : V)
      → IsPending key fingerprint now c
      → (begin (finish c key (ok v)) key fingerprint now').1
        ≡ waits (record (new_entry fingerprint now) { done = some (ok v) })
  unfolding begin finish
  answered c key fingerprint now now' v p =
      rw (p.1, finish)
        (ground (
          arith,
          lookup-insert key key (record (new_entry fingerprint now) { done = some (ok v) }) c.idem,
          text_eq_refl key,
          text_eq_refl fingerprint,
        ))

  executes_with_room :
      (c : Client E V) (key fingerprint : Text) (now : Time)
      → lookup key c.idem ≡ none
      → length c.idem < c.max_idem_entries
      → (begin c key fingerprint now).1 ≡ executes
  unfolding begin make_room
  executes_with_room c key fingerprint now gone room = rw (gone, begin) (ground (arith, room))

  retried :
      (max : ℕ) (c : Client E V) (key fingerprint : Text) (now now' : Time) (e : E)
      → IsWithin max c
      → IsPending key fingerprint now c
      → (begin (finish c key (err e)) key fingerprint now').1 ≡ executes
  unfolding finish
  retried max c key fingerprint now now' e b p =
      rw (p.1, finish)
        (executes_with_room (record c { idem = delete key c.idem }) key fingerprint now'
          (ground (arith, lookup-delete key key c.idem, text_eq_refl key))
          (omega (arith, length-delete-lt key (new_entry fingerprint now) c.idem p.1, b.0, b.1)))

  abbrev pub after_result : Text → Time → Result E V → Begun E V
  after_result fingerprint now (ok v) =
      waits (record (new_entry fingerprint now) { done = some (ok v) })
  after_result fingerprint now (err e) = executes

  -- A call that has been executed is answered: when the one that executes finishes with a value, the
  -- next call of the key with its fingerprint finds its entry done, with that value; when it finishes
  -- with an error, the next one executes, even if the entries were full. Before that, other calls of
  -- other keys may finish, and any may begin.
  pub finished_is_answered :
      (max : ℕ) (c w : Client E V) (key fingerprint : Text) (now now' : Time)
      (es : List (Event E V)) (result : Result E V)
      → IsWithin max c
      → begin c key fingerprint now ≡ (w, executes)
      → IsOpen key es
      → (begin (finish (run w es) key result) key fingerprint now').1
        ≡ after_result fingerprint now result
  finished_is_answered max c w key fingerprint now now' es result b h opened =
      let p =
        run-IsPending key fingerprint now w es opened
          (begun-IsPending c w key fingerprint now b.2 h) in
      elim (Result-cases result) [
        | inl (v, fine) ↦ rw fine (answered (run w es) key fingerprint now now' v p)
        | inr (e, bad) ↦
            let bounded : IsWithin max w =
              rw (← ap (λ x. x.0) h) (begin-IsWithin max c key fingerprint now b) in
            rw bad (retried max (run w es) key fingerprint now now' e (within max w es bounded) p)
      ]
