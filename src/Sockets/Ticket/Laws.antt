-- ===== src/Sockets/Ticket/Laws.antt =====
-- A ticket opens one socket, once, for ten seconds.
use intelli_attend_smart_boa.Base.{
  ℕ, ◌+◌, ◌≤◌, ◌<◌, String, ◌≡◌, ◌≢◌, ◌↔◌, Option, some, arith, same_iff, same_refl, Option-cases,
  inl, inr,
}
use intelli_attend_smart_boa.Dict.{lookup, lookup-insert, lookup-erase}
use intelli_attend_smart_boa.Http.{ok}
use intelli_attend_smart_boa.Json.{Json}
use intelli_attend_smart_boa.Models.{seconds}
use intelli_attend_smart_boa.Env.{Env, FirebaseClaims}
use intelli_attend_smart_boa.Security.{bearer}
use intelli_attend_smart_boa.Sockets.Ticket.{
  TicketData, Tickets, ticket_of, uid_of, get_websocket_ticket, accepted, closed, redeem_session,
  redeem_board,
}

-- A board socket opens exactly for a ticket of that very board that has not run out.
pub redeem_board_iff :
    (now : ℕ) (board ticket : String) (store : Tickets)
    → ((redeem_board now board ticket store).0 ≡ accepted) ↔ (
        (t : TicketData) × (lookup ticket store ≡ some t)
        × (now ≤ t.expires_at)
        × (t.board_id ≡ board))
unfolding redeem_board
redeem_board_iff now board ticket store = elim (Option-cases (lookup ticket store)) [
  | inl e ↦ (λ h. absurd (ground arith), λ (t, found, fresh, mine). absurd (ground arith))
  | inr (t, found) ↦ (
    (λ h. (t, found, ground arith, ground (arith, same_iff t.board_id board))),
    (λ (t', found', fresh, mine). ground (arith, same_iff t.board_id board)),
  )
]

-- A ticket is spent by the first socket that names it, on either route and whether or not that
-- socket is accepted: afterwards both routes refuse it as unknown at any time and for any board,
-- and every other ticket is as it was.
pub ticket_spent :
    (now later : ℕ) (board other ticket : String) (store : Tickets)
    → let after_session = (redeem_session now ticket store).1 in
      let after_board = (redeem_board now board ticket store).1 in
      ((redeem_session later ticket after_board).0 ≡ closed "Invalid or expired ticket")
      × ((redeem_board later other ticket after_session).0 ≡ closed "Invalid or expired ticket")
      × ((redeem_session later ticket after_session).0 ≡ closed "Invalid or expired ticket")
      × ((redeem_board later other ticket after_board).0 ≡ closed "Invalid or expired ticket")
      × ((k : String) → k ≢ ticket → lookup k after_board ≡ lookup k store)
unfolding redeem_session redeem_board
ticket_spent now later board other ticket store =
    let gone = lookup-erase ticket ticket store in
    (
      ground (arith, gone, same_refl ticket),
      ground (arith, gone, same_refl ticket),
      ground (arith, gone, same_refl ticket),
      ground (arith, gone, same_refl ticket),
      λ k h. ground (arith, lookup-erase ticket k store, same_iff ticket k),
    )

-- A ticket issued to a verified caller opens the socket of the caller's uid when it is used within
-- ten seconds, and no socket of any board after that.
pub issued_ticket_opens :
    (env : Env) (now later : ℕ) (hex token : String) (header : Option String) (c : FirebaseClaims)
    (store : Tickets) (answer : Json) (store' : Tickets)
    → get_websocket_ticket env now hex header store ≡ (ok answer, store')
    → bearer header ≡ some token
    → env.verify_id_token token ≡ some c
    → (later ≤ now + seconds 10
        → (redeem_board later (uid_of c) (ticket_of hex) store').0 ≡ accepted)
      × (now + seconds 10 < later
          → (board : String)
          → (redeem_board later board (ticket_of hex) store').0 ≡ closed "Ticket expired")
unfolding get_websocket_ticket redeem_board
issued_ticket_opens env now later hex token header c store answer store' e carried verified =
    let ticket = ticket_of hex in
    let t : TicketData = record { board_id = uid_of c; expires_at = now + seconds 10 } in
    let stored : lookup ticket store' ≡ some t =
      ground (arith, lookup-insert ticket ticket t store, same_refl ticket) in
    (λ h. ground (arith, stored, same_refl (uid_of c)), λ h board. ground (arith, stored))
