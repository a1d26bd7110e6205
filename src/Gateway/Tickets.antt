-- ===== src/Gateway/Tickets.antt =====
-- services/websshgateway: a browser ticket is good once, for the binding that it was issued for.
use vps_manager.Base.{
  ◌≡◌, ◌≢◌, refl, inl, inr, true, false, some, none, List, [], ◌∷◌, arith, Time, Text, lookup,
  length, ltb, ◌==◌, text_eq_iff, text_eq_refl, lookup-insert, lookup-delete, keep-none, Bool-cases,
  Option-cases, ok,
}
use vps_manager.Encoding.Base64
use vps_manager.Gateway.Validation.{HelloMessage}
use vps_manager.Gateway.{
  Broker, BrowserTicket, prune, reserve_ticket, release_ticket_reservation, store_ticket, close,
  take_ticket, consume_ticket,
}

-- What happens to a broker; `drops` is the pruning that a timer makes.
pub data Step : Type 0 where
  reserves : Time → Step
  releases : Step
  stores : Text → BrowserTicket → Time → Step
  consumes : HelloMessage → Time → Step
  drops : Time → Step
  closes : Step

module _ (sha256 : Text → Text) where
  unfoldable pub step : Broker → Step → Broker
  step b (reserves now) = (reserve_ticket b now).0
  step b releases = release_ticket_reservation b
  step b (stores hash ticket now) = (store_ticket b hash ticket now).0
  step b (consumes hello now) = (consume_ticket sha256 b hello now).0
  step b (drops now) = prune b now
  step b closes = close b

  unfoldable pub run : Broker → List Step → Broker
  unfolding step
  run b [] = b
  run b (s ∷ ss) = run (step b s) ss

  -- No ticket is stored under the hash.
  abbrev pub LeavesOut : Text → List Step → Type 0
  LeavesOut hash [] = Unit
  LeavesOut hash (stores h ticket now ∷ ss) = (h ≢ hash) × LeavesOut hash ss
  LeavesOut hash (reserves now ∷ ss) = LeavesOut hash ss
  LeavesOut hash (releases ∷ ss) = LeavesOut hash ss
  LeavesOut hash (consumes hello now ∷ ss) = LeavesOut hash ss
  LeavesOut hash (drops now ∷ ss) = LeavesOut hash ss
  LeavesOut hash (closes ∷ ss) = LeavesOut hash ss

  abbrev IsGone : Text → Broker → Type 0
  IsGone hash b = lookup hash b.tickets ≡ none

  prune-IsGone : (hash : Text) (b : Broker) (now : Time) → IsGone hash b → IsGone hash (prune b now)
  prune-IsGone hash b now h = keep-none (λ t. ltb now t.expires_at) hash b.tickets h

  reserve_ticket-IsGone :
      (hash : Text) (b : Broker) (now : Time) → IsGone hash b → IsGone hash (reserve_ticket b now).0
  unfolding reserve_ticket
  reserve_ticket-IsGone hash b now h = ground (arith, prune-IsGone hash b now h)

  store_ticket-IsGone :
      (hash : Text) (b : Broker) (h : Text) (ticket : BrowserTicket) (now : Time)
      → h ≢ hash
      → IsGone hash b
      → IsGone hash (store_ticket b h ticket now).0
  unfolding store_ticket
  store_ticket-IsGone hash b h ticket now other gone = ground (
    arith,
    prune-IsGone hash b now gone,
    lookup-insert h hash ticket (prune b now).tickets,
    text_eq_iff h hash,
  )

  take_ticket-IsGone :
      (hash : Text) (b : Broker) (h : Text) (hello : HelloMessage) (now : Time)
      → IsGone hash b
      → IsGone hash (take_ticket sha256 b h hello now).0
  unfolding take_ticket
  take_ticket-IsGone hash b h hello now gone =
      elim (Option-cases (lookup h (prune b now).tickets)) [
        | inl e ↦ rw (e, take_ticket) (prune-IsGone hash b now gone)
        | inr (t, e) ↦
            rw (e, take_ticket)
              (ground
                (arith, prune-IsGone hash b now gone, lookup-delete h hash (prune b now).tickets))
      ]

  consume_ticket-IsGone :
      (hash : Text) (b : Broker) (hello : HelloMessage) (now : Time)
      → IsGone hash b
      → IsGone hash (consume_ticket sha256 b hello now).0
  unfolding consume_ticket
  consume_ticket-IsGone hash b hello now gone =
      elim (Option-cases (Base64.decode false hello.ticket)) [
        | inl e ↦ rw (e, consume_ticket) gone
        | inr (d, e) ↦ elim (Bool-cases (length d == 32)) [
          | inl fits ↦
              rw (e, consume_ticket) (rw fits (take_ticket-IsGone hash b (sha256 d) hello now gone))
          | inr bad ↦ rw (e, consume_ticket) (rw bad gone)
        ]
      ]

  close-IsGone : (hash : Text) (b : Broker) → IsGone hash b → IsGone hash (close b)
  unfolding close lookup
  close-IsGone hash b gone = elim (Bool-cases b.closed) [ inl e ↦ rw e gone | inr e ↦ rw e refl ]

  run-IsGone :
      (hash : Text) (b : Broker) (ss : List Step)
      → LeavesOut hash ss
      → IsGone hash b
      → IsGone hash (run b ss)
  unfolding run step release_ticket_reservation
  run-IsGone hash b [] out gone = gone
  run-IsGone hash b (reserves now ∷ ss) out gone =
      run-IsGone hash (step b (reserves now)) ss out (reserve_ticket-IsGone hash b now gone)
  run-IsGone hash b (releases ∷ ss) out gone = run-IsGone hash (step b releases) ss out gone
  run-IsGone hash b (stores h ticket now ∷ ss) out gone =
      run-IsGone hash (step b (stores h ticket now)) ss out.1
        (store_ticket-IsGone hash b h ticket now out.0 gone)
  run-IsGone hash b (consumes hello now ∷ ss) out gone =
      run-IsGone hash (step b (consumes hello now)) ss out
        (consume_ticket-IsGone hash b hello now gone)
  run-IsGone hash b (drops now ∷ ss) out gone =
      run-IsGone hash (step b (drops now)) ss out (prune-IsGone hash b now gone)
  run-IsGone hash b (closes ∷ ss) out gone =
      run-IsGone hash (step b closes) ss out (close-IsGone hash b gone)

  consume_bad_length :
      (b : Broker) (hello : HelloMessage) (raw : Text) (now : Time) (t : BrowserTicket)
      → Base64.decode false hello.ticket ≡ some raw
      → (length raw == 32) ≡ false
      → (consume_ticket sha256 b hello now).1 ≢ ok t
  unfolding consume_ticket
  consume_bad_length b hello raw now t d bad h = ground (arith, h, d, bad)

  consume_gone :
      (b : Broker) (hello : HelloMessage) (raw : Text) (now : Time) (t : BrowserTicket)
      → Base64.decode false hello.ticket ≡ some raw
      → lookup (sha256 raw) (prune b now).tickets ≡ none
      → (consume_ticket sha256 b hello now).1 ≢ ok t
  unfolding consume_ticket take_ticket
  consume_gone b hello raw now t d gone h = ground (arith, h, d, gone)

  consume_ticket_takes :
      (b : Broker) (hello : HelloMessage) (raw : Text) (now : Time)
      → Base64.decode false hello.ticket ≡ some raw
      → (length raw == 32) ≡ true
      → IsGone (sha256 raw) (consume_ticket sha256 b hello now).0
  unfolding consume_ticket take_ticket
  consume_ticket_takes b hello raw now d fits = ground (
    arith,
    d,
    fits,
    lookup-delete (sha256 raw) (sha256 raw) (prune b now).tickets,
    text_eq_refl (sha256 raw),
    Option-cases (lookup (sha256 raw) (prune b now).tickets),
  )

  -- A ticket is taken at the first attempt, and there is no second: whether consuming it succeeded or
  -- not, then whatever the broker does, as long as no ticket is stored under the same hash, no one gets
  -- it again, at any time and by whatever text that decodes to the same bytes.
  pub consume_ticket_once :
      (b : Broker) (hello hello' : HelloMessage) (raw : Text) (now now' : Time) (ss : List Step)
      (t : BrowserTicket)
      → Base64.decode false hello.ticket ≡ some raw
      → Base64.decode false hello'.ticket ≡ some raw
      → LeavesOut (sha256 raw) ss
      → (consume_ticket sha256 (run (consume_ticket sha256 b hello now).0 ss) hello' now').1 ≢ ok t
  consume_ticket_once b hello hello' raw now now' ss t d d' out h =
      elim (Bool-cases (length raw == 32)) [
        | inr bad ↦
            consume_bad_length (run (consume_ticket sha256 b hello now).0 ss) hello' raw now' t d'
              bad h
        | inl fits ↦
            let w = run (consume_ticket sha256 b hello now).0 ss in
            let gone : IsGone (sha256 raw) w =
              run-IsGone (sha256 raw) (consume_ticket sha256 b hello now).0 ss out
                (consume_ticket_takes b hello raw now d fits) in
            consume_gone w hello' raw now' t d' (prune-IsGone (sha256 raw) w now' gone) h
      ]
