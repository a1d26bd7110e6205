-- ===== src/Store/Log.antt =====
-- The audit log: what a listing of it gives.
use vps_manager.Base.{
  ℕ, zero, suc, ◌-◌, ◌≤◌, ◌<◌, ◌≡◌, refl, sym, ap, ◌∙◌, List, [], ◌∷◌, ◌++◌, map, arith, ℤ, pos,
  negsuc, leb_ℤ, ltb_ℤ, ltb, ◌==◌, ◌⊎◌, true, length, length-append, take, leb, inl, inr,
  Bool-cases,
}
use mathlib.Core.List.{reverse, reverse-append, reverse-cons}
use vps_manager.Store.Types.{Memory, AuditEvent}
use vps_manager.Store.{clone_audit, event_at, back_to, audit_limit, list_audits}

take-snoc :
    (events : List AuditEvent) (i : ℕ)
    → i < length events
    → take (suc i) events ≡ take i events ++ event_at events i
unfolding event_at
take-snoc [] i h = absurd (omega arith)
take-snoc (e ∷ events) zero h = refl
take-snoc (e ∷ events) (suc i) h = ap (λ l. e ∷ l) (take-snoc events i (omega arith))

event_at-some :
    (events : List AuditEvent) (i : ℕ)
    → i < length events
    → (event : AuditEvent) × (event_at events i ≡ event ∷ [])
unfolding event_at
event_at-some [] i h = absurd (omega arith)
event_at-some (e ∷ events) zero h = (e, refl)
event_at-some (e ∷ events) (suc i) h = event_at-some events i (omega arith)

newest :
    (events : List AuditEvent) (start n : ℕ)
    → n ≤ length events
    → back_to events start n ≡ map clone_audit (take (n - start) (reverse (take n events)))
unfolding back_to
newest events start zero h = let none_left : 0 - start ≡ 0 = omega arith in rw none_left refl
newest events start (suc i) h =
    let here = event_at-some events i (omega arith) in
    let ih = newest events start i (omega arith) in
    let turned : reverse (take (suc i) events) ≡ here.0 ∷ reverse (take i events) =
      ap reverse (take-snoc events i (omega arith) ∙ ap (λ l. take i events ++ l) here.1)
      ∙ reverse-append (take i events) (here.0 ∷ []) in
    elim (Bool-cases (leb start i)) [
      | inl reached ↦
          let count : suc i - start ≡ suc (i - start) = ground arith in
          rw (reached, turned, count, here.1, ih) refl
      | inr passed ↦ let count : suc i - start ≡ 0 = ground arith in rw (passed, count) refl
    ]

length-reverse : (events : List AuditEvent) → length (reverse events) ≡ length events
length-reverse [] = refl
length-reverse (e ∷ events) =
    rw (reverse-cons e events)
      (omega (arith, length-append (reverse events) (e ∷ []), length-reverse events))

take-more : (n : ℕ) (events : List AuditEvent) → length events ≤ n → take n events ≡ events
take-more zero [] h = refl
take-more zero (e ∷ events) h = absurd (omega arith)
take-more (suc n) [] h = refl
take-more (suc n) (e ∷ events) h = ap (λ l. e ∷ l) (take-more n events (omega arith))

take-back :
    (n len : ℕ) (events : List AuditEvent)
    → length events ≡ len
    → take (len - (len - n)) events ≡ take n events
take-back n len events h = elim (Bool-cases (leb n len)) [
  | inl short ↦ let same : len - (len - n) ≡ n = ground arith in rw same refl
  | inr long ↦
      let same : len - (len - n) ≡ len = ground arith in
      rw same (take-more len events (ground arith) ∙ sym (take-more n events (ground (arith, h))))
]

newest_of {ℓ} :
    {Payload : Type ℓ} (m : Memory Payload) (limit : ℤ)
    → list_audits m limit ≡ map clone_audit (take (audit_limit limit) (reverse m.audits))
unfolding list_audits
newest_of m limit =
    newest m.audits (length m.audits - audit_limit limit) (length m.audits) (omega arith)
    ∙ ap
        (λ l.
          map clone_audit
            (take (length m.audits - (length m.audits - audit_limit limit)) (reverse l)))
        (take-more (length m.audits) m.audits (omega arith))
    ∙ ap (map clone_audit) (
        take-back (audit_limit limit) (length m.audits) (reverse m.audits)
          (length-reverse m.audits))

-- How many events a listing shows: the limit where it is from 1 to 500, else 100.
abbrev pub Shows : ℤ → ℕ → Type 0
Shows limit n =
    ((limit ≡ pos n) × (1 ≤ n) × (n ≤ 500))
    ⊎ (((leb_ℤ limit (pos 0) ≡ true) ⊎ (ltb_ℤ (pos 500) limit ≡ true)) × (n ≡ 100))

audit_limit-Shows : (limit : ℤ) → Shows limit (audit_limit limit)
unfolding audit_limit
audit_limit-Shows (negsuc n) = inr (inl (ground arith), refl)
audit_limit-Shows (pos n) = elim (Bool-cases (n == 0)) [
  | inl none_asked ↦ inr (inl (ground (arith, none_asked)), ground (arith, none_asked))
  | inr some_asked ↦ elim (Bool-cases (ltb 500 n)) [
    | inl many ↦ inr (inr (ground (arith, many)), ground (arith, many))
    | inr few ↦
        let same : audit_limit (pos n) ≡ n = ground (arith, some_asked, few) in
        inl (ap pos (sym same), ground (arith, same, some_asked), ground (arith, same, few))
  ]
]

-- A listing of the log gives its newest events, the latest first: as many as the limit asks for where
-- that is from 1 to 500, and 100 where it is not.
pub list_audits_newest {ℓ} :
    {Payload : Type ℓ} (m : Memory Payload) (limit : ℤ)
    → (n : ℕ) × Shows limit n × (list_audits m limit ≡ map clone_audit (take n (reverse m.audits)))
list_audits_newest m limit = (audit_limit limit, audit_limit-Shows limit, newest_of m limit)
