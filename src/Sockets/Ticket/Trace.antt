-- ===== src/Sockets/Ticket/Trace.antt =====
-- A ticket opens at most one socket, over any sequence of requests.
use intelli_attend_smart_boa.Base.{
  ℕ, ◌+◌, ◌≤◌, String, ◌≡◌, Bool, true, false, Option, none, some, List, [], ◌∷◌, arith, same,
  same_iff, if◌then◌else◌, Option-cases, Bool-cases, inl, inr, ◌&&◌,
}
use intelli_attend_smart_boa.Dict.{lookup, insert, lookup-insert, lookup-erase}
use intelli_attend_smart_boa.Http.{ok, err}
use intelli_attend_smart_boa.Models.{seconds}
use intelli_attend_smart_boa.Env.{Env}
use intelli_attend_smart_boa.Security.{bearer}
use intelli_attend_smart_boa.Sockets.Ticket.{
  TicketData, Tickets, ticket_of, uid_of, get_websocket_ticket, Opening, accepted, closed,
  redeem_session, redeem_board,
}

-- A request that touches the store of tickets.
pub data Event : Type 0 where
  asks : (now : ℕ) → (hex : String) → (header : Option String) → Event
  opens_session : (now : ℕ) → (ticket : String) → Event
  opens_board : (now : ℕ) → (board ticket : String) → Event

abbrev is_accepted : Opening → Bool
is_accepted accepted = true
is_accepted (closed reason) = false

abbrev one_if : Bool → ℕ
one_if true = 1
one_if false = 0

abbrev is_held : String → Tickets → Bool
is_held k store = elim (lookup k store) [ none ↦ false | some t ↦ true ]

module _ (env : Env) where
  -- The store after an event.
  abbrev pub store_after : Event → Tickets → Tickets
  store_after (asks now hex header) store = (get_websocket_ticket env now hex header store).1
  store_after (opens_session now ticket) store = (redeem_session now ticket store).1
  store_after (opens_board now board ticket) store = (redeem_board now board ticket store).1

  -- Whether an event opens a socket for the ticket, and whether it issues it.
  abbrev pub opens : String → Event → Tickets → Bool
  opens k (asks now hex header) store = false
  opens k (opens_session now ticket) store =
      same ticket k && is_accepted (redeem_session now ticket store).0
  opens k (opens_board now board ticket) store =
      same ticket k && is_accepted (redeem_board now board ticket store).0

  abbrev pub issues : String → Event → Tickets → Bool
  issues k (asks now hex header) store =
      same (ticket_of hex) k
      && elim (get_websocket_ticket env now hex header store).0 [ ok a ↦ true | err e ↦ false ]
  issues k (opens_session now ticket) store = false
  issues k (opens_board now board ticket) store = false

  -- How often a ticket opens a socket, and how often it is issued, over a sequence of events.
  abbrev pub opened : String → List Event → Tickets → ℕ
  opened k [] store = 0
  opened k (e ∷ events) store = one_if (opens k e store) + opened k events (store_after e store)

  abbrev pub issued : String → List Event → Tickets → ℕ
  issued k [] store = 0
  issued k (e ∷ events) store = one_if (issues k e store) + issued k events (store_after e store)

  -- An event that opens a socket for a ticket uses it up.
  step_pays :
      (k : String) (e : Event) (store : Tickets)
      → one_if (opens k e store) + one_if (is_held k (store_after e store))
        ≤ one_if (issues k e store) + one_if (is_held k store)
  unfolding get_websocket_ticket redeem_session redeem_board
  step_pays k (asks now hex header) store =
      let e = asks now hex header in
      elim (Option-cases (bearer header)) [
        | inl none_carried ↦
            let after : store_after e store ≡ store = ground arith in rw after (omega arith)
        | inr (token, carried) ↦ elim (Option-cases (env.verify_id_token token)) [
          | inl refused ↦
              let after : store_after e store ≡ store = ground arith in rw after (omega arith)
          | inr (c, verified) ↦
              let t : TicketData = record { board_id = uid_of c; expires_at = now + seconds 10 } in
              let after : store_after e store ≡ insert (ticket_of hex) t store = ground arith in
              let made : issues k e store ≡ same (ticket_of hex) k = ground arith in
              let held : is_held k (insert (ticket_of hex) t store)
                  ≡ (if same (ticket_of hex) k then true else is_held k store) =
                ground (arith, lookup-insert (ticket_of hex) k t store) in
              rw (after, made, held)
                (elim (Bool-cases (same (ticket_of hex) k)) [
                  | inl this ↦ rw this (omega arith)
                  | inr other ↦ rw other (omega arith)
                ])
        ]
      ]
  step_pays k (opens_session now ticket) store =
      ground (arith, lookup-erase ticket k store, same_iff ticket k)
  step_pays k (opens_board now board ticket) store =
      ground (arith, lookup-erase ticket k store, same_iff ticket k)

  opened-le-issued_from :
      (k : String) (events : List Event) (store : Tickets)
      → opened k events store ≤ issued k events store + one_if (is_held k store)
  opened-le-issued_from k [] store = omega arith
  opened-le-issued_from k (e ∷ events) store =
      omega (arith, step_pays k e store, opened-le-issued_from k events (store_after e store))

  -- From an empty store, whatever requests for tickets and openings of sockets arrive, in any order
  -- and at any times, a ticket opens at most as many sockets, on both routes together, as it was
  -- issued times: one, as long as the random draws of tickets do not repeat.
  pub opened-le-issued :
      (k : String) (events : List Event) → opened k events [] ≤ issued k events []
  opened-le-issued k events = omega (arith, opened-le-issued_from k events [])
