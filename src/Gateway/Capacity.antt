-- ===== src/Gateway/Capacity.antt =====
-- services/websshgateway/broker.go: reservations keep room for the tickets that are being issued. Between
-- the reservation, the store and the release of one issuance, others run their own.
use vps_manager.Base.{
  ℕ, ◌+◌, ◌-◌, ◌*◌, ◌<◌, ◌≤◌, ◌≡◌, ◌⊎◌, refl, inl, inr, true, false, none, some, leb, arith, Time,
  Text, lookup, length, ltb, ◌==◌, length-keep-le, length-insert-le, length-delete-le, keep-none,
  ◌∙◌, Bool-cases, Option-cases,
}
use vps_manager.Encoding.Base64
use vps_manager.Gateway.Validation.{HelloMessage}
use vps_manager.Gateway.{
  Broker, BrowserTicket, prune, new_broker, reserve_ticket, release_ticket_reservation,
  store_ticket, close, take_ticket, consume_ticket,
}

-- A broker, how many issuances hold a reservation and have not come to store a ticket, and how many
-- have but have not released it.
pub record Issuing : Type 0 where
  pub broker : Broker
  pub waiting : ℕ
  pub leaving : ℕ

module _ (sha256 : Text → Text) where
  pub data Move : Issuing → Issuing → Type 0 where
    reserves :
        (i : Issuing) (now : Time)
        → (reserve_ticket i.broker now).1 ≡ true
        → Move i (record i { broker = (reserve_ticket i.broker now).0; waiting = i.waiting + 1 })
    is_refused :
        (i : Issuing) (now : Time)
        → (reserve_ticket i.broker now).1 ≡ false
        → Move i (record i { broker = (reserve_ticket i.broker now).0 })
    stores :
        (i : Issuing) (hash : Text) (ticket : BrowserTicket) (now : Time)
        → 0 < i.waiting
        → Move i (record i {
          broker = (store_ticket i.broker hash ticket now).0;
          waiting = i.waiting - 1;
          leaving = i.leaving + 1;
        })
    gives_up :
        (i : Issuing)
        → 0 < i.waiting
        → Move i (record i { waiting = i.waiting - 1; leaving = i.leaving + 1 })
    releases :
        (i : Issuing)
        → 0 < i.leaving
        → Move i
            (record i { broker = release_ticket_reservation i.broker; leaving = i.leaving - 1 })
    consumes :
        (i : Issuing) (hello : HelloMessage) (now : Time)
        → Move i (record i { broker = (consume_ticket sha256 i.broker hello now).0 })
    drops : (i : Issuing) (now : Time) → Move i (record i { broker = prune i.broker now })
    closes : (i : Issuing) → Move i (record i { broker = close i.broker })

  pub data Reach (s : Issuing) : Issuing → Type 0 where
    here : Reach s s
    next : {t u : Issuing} → Reach s t → Move t u → Reach s u

  -- Every reservation is one that waits or leaves, and those that wait have room.
  pub record IsRoomy (max : ℕ) (i : Issuing) : Type 0 where
    pub limit : i.broker.max_outstanding ≡ max
    pub counted : i.broker.issuing ≡ i.waiting + i.leaving
    pub room : length i.broker.tickets + i.waiting ≤ max

  take_ticket_sizes :
      (b : Broker) (hash : Text) (hello : HelloMessage) (now : Time)
      → (length (take_ticket sha256 b hash hello now).0.tickets ≤ length b.tickets)
        × ((take_ticket sha256 b hash hello now).0.issuing ≡ b.issuing)
        × ((take_ticket sha256 b hash hello now).0.max_outstanding ≡ b.max_outstanding)
  unfolding take_ticket
  take_ticket_sizes b hash hello now =
      let small = length-keep-le (λ t. ltb now t.expires_at) b.tickets in
      elim (Option-cases (lookup hash (prune b now).tickets)) [
        | inl e ↦ rw (e, take_ticket) (small, refl, refl)
        | inr (t, e) ↦
            rw (e, take_ticket)
              (omega (arith, small, length-delete-le hash (prune b now).tickets), refl, refl)
      ]

  consume_ticket_sizes :
      (b : Broker) (hello : HelloMessage) (now : Time)
      → (length (consume_ticket sha256 b hello now).0.tickets ≤ length b.tickets)
        × ((consume_ticket sha256 b hello now).0.issuing ≡ b.issuing)
        × ((consume_ticket sha256 b hello now).0.max_outstanding ≡ b.max_outstanding)
  unfolding consume_ticket
  consume_ticket_sizes b hello now = elim (Option-cases (Base64.decode false hello.ticket)) [
    | inl e ↦ rw (e, consume_ticket) (omega arith, refl, refl)
    | inr (d, e) ↦ elim (Bool-cases (length d == 32)) [
      | inl fits ↦ rw (e, consume_ticket) (rw fits (take_ticket_sizes b (sha256 d) hello now))
      | inr bad ↦ rw (e, consume_ticket) (rw bad (omega arith, refl, refl))
    ]
  ]

  Move-IsRoomy : {max : ℕ} {i j : Issuing} → Move i j → IsRoomy max i → IsRoomy max j
  unfolding reserve_ticket store_ticket release_ticket_reservation close
  Move-IsRoomy (reserves i now h) v =
      let small = length-keep-le (λ t. ltb now t.expires_at) i.broker.tickets in
      record {
        limit = ground (arith, v.limit);
        counted = ground (arith, v.counted, h);
        room = ground (arith, v.room, v.counted, v.limit, small, h);
      }
  Move-IsRoomy (is_refused i now h) v =
      let small = length-keep-le (λ t. ltb now t.expires_at) i.broker.tickets in
      record {
        limit = ground (arith, v.limit);
        counted = ground (arith, v.counted, h);
        room = ground (arith, v.room, small, h);
      }
  Move-IsRoomy (stores i hash ticket now h) v =
      let small = length-keep-le (λ t. ltb now t.expires_at) i.broker.tickets in
      let more = length-insert-le hash ticket (prune i.broker now).tickets in
      record {
        limit = ground (arith, v.limit);
        counted = ground (arith, v.counted, h);
        room = ground (arith, v.room, small, more, h);
      }
  Move-IsRoomy (gives_up i h) v = record {
    limit = v.limit;
    counted = omega (arith, v.counted, h);
    room = omega (arith, v.room);
  }
  Move-IsRoomy (releases i h) v = record {
    limit = v.limit;
    counted = omega (arith, v.counted, h);
    room = v.room;
  }
  Move-IsRoomy (consumes i hello now) v =
      let sizes = consume_ticket_sizes i.broker hello now in
      record {
        limit = sizes.2 ∙ v.limit;
        counted = sizes.1 ∙ v.counted;
        room = omega (arith, v.room, sizes.0);
      }
  Move-IsRoomy (drops i now) v = record {
    limit = v.limit;
    counted = v.counted;
    room = omega (arith, v.room, length-keep-le (λ t. ltb now t.expires_at) i.broker.tickets);
  }
  Move-IsRoomy (closes i) v = record {
    limit = ground (arith, v.limit);
    counted = ground (arith, v.counted);
    room = ground (arith, v.room);
  }

  Reach-IsRoomy : {max : ℕ} {i j : Issuing} → IsRoomy max i → Reach i j → IsRoomy max j
  Reach-IsRoomy v here = v
  Reach-IsRoomy v (next r m) = Move-IsRoomy m (Reach-IsRoomy v r)

  abbrev pub fresh : ℕ → ℕ → Issuing
  fresh ttl max = record { broker = new_broker ttl max; waiting = 0; leaving = 0 }

  fresh-IsRoomy : (ttl max : ℕ) → IsRoomy max (fresh ttl max)
  unfolding new_broker
  fresh-IsRoomy ttl max = record { limit = refl; counted = refl; room = omega arith }

  stored_unless :
      (max : ℕ) (i : Issuing) (hash : Text) (ticket : BrowserTicket) (now : Time)
      → IsRoomy max i
      → 0 < i.waiting
      → i.broker.closed ≡ false
      → length i.broker.consumed < max * 4
      → lookup hash i.broker.tickets ≡ none
      → (store_ticket i.broker hash ticket now).1 ≡ true
  unfolding store_ticket
  stored_unless max i hash ticket now v waits is_open few free =
      let small = length-keep-le (λ t. ltb now t.expires_at) i.broker.tickets in
      let fewer = length-keep-le (λ expires. ltb now expires) i.broker.consumed in
      let gone = keep-none (λ t. ltb now t.expires_at) hash i.broker.tickets free in
      ground (arith, v.room, v.limit, waits, is_open, few, small, fewer, gone)

  -- Why a ticket cannot be stored: no reservation is held, the broker was closed, the list of consumed
  -- tickets is full, or a ticket is there under the same hash.
  abbrev pub IsHindered : ℕ → Issuing → Text → Type 0
  IsHindered max i hash =
      (i.waiting ≡ 0)
      ⊎ ((i.broker.closed ≡ true)
          ⊎ ((max * 4 ≤ length i.broker.consumed)
              ⊎ ((t : BrowserTicket) × (lookup hash i.broker.tickets ≡ some t))))

  -- From a new broker on, however issuances, consumptions and prunings interleave, the tickets and the
  -- reservations that have not come to store one are together no more than the tickets that the
  -- configuration allows. So an issuance that holds a reservation finds room: its ticket is stored,
  -- unless the broker was closed, the list of consumed tickets is full, or there is a ticket under the
  -- same hash.
  pub reserved_has_room :
      (ttl max : ℕ) (i : Issuing) (hash : Text) (ticket : BrowserTicket) (now : Time)
      → Reach (fresh ttl max) i
      → (length i.broker.tickets + i.waiting ≤ max)
        × (IsHindered max i hash ⊎ ((store_ticket i.broker hash ticket now).1 ≡ true))
  reserved_has_room ttl max i hash ticket now r =
      let v = Reach-IsRoomy (fresh-IsRoomy ttl max) r in
      (
        v.room,
        elim (Bool-cases (i.waiting == 0)) [
          | inl idle ↦ inl (inl (ground (arith, idle)))
          | inr waits ↦ elim (Bool-cases i.broker.closed) [
            | inl closed ↦ inl (inr (inl closed))
            | inr opened ↦ elim (Bool-cases (leb (max * 4) (length i.broker.consumed))) [
              | inl full ↦ inl (inr (inr (inl (ground (arith, full)))))
              | inr few ↦ elim (Option-cases (lookup hash i.broker.tickets)) [
                | inr (t, there) ↦ inl (inr (inr (inr (t, there))))
                | inl free ↦ inr (
                    stored_unless max i hash ticket now v (ground (arith, waits)) opened
                      (ground (arith, few)) free)
              ]
            ]
          ]
        ],
      )
