-- ===== src/Sockets/Tests.antt =====
-- A ticket, a queue and a room, at concrete values.
use intelli_attend_smart_boa.Base.{
  ℕ, ◌+◌, ◌≤◌, String, ◌≡◌, refl, Bool, true, false, some, [], ◌∷◌, List, ◌++◌, starts_with, split,
  same,
}
use intelli_attend_smart_boa.Dict.{lookup}
use intelli_attend_smart_boa.Http.{ok}
use intelli_attend_smart_boa.Json.{Json, text, num, obj, end, ◌↪◌⨾◌}
use intelli_attend_smart_boa.Models.{seconds}
use intelli_attend_smart_boa.Env.{FirebaseClaims}
use intelli_attend_smart_boa.Security.{bearer}
use intelli_attend_smart_boa.Fixtures.{test_env, no_boards}
use intelli_attend_smart_boa.Sockets.Ticket.{TicketData, Tickets, get_websocket_ticket}
use intelli_attend_smart_boa.Sockets.Ticket.Trace
use intelli_attend_smart_boa.Sockets.Ticket.Trace.{
  Event, asks, opens_session, opens_board, opened, opened-le-issued,
}
use intelli_attend_smart_boa.Sockets.Boards.{Boards, connect, disconnect, send_or_queue}
use intelli_attend_smart_boa.Sockets.Boards.Log.{
  Event as BoardEvent, sends, connects, disconnects, run, received, requested, IsCaughtUp, run_lem,
}
use intelli_attend_smart_boa.Sockets.Boards.Laws.{waiting, late_disconnect}

abbrev board_ticket : TicketData
board_ticket = record { board_id = "f1"; expires_at = 0 + seconds 10 }

abbrev store : Tickets
store = ("tkt_ab", board_ticket) ∷ []

abbrev command : Json
command = text "restart"

abbrev issued : Json
issued = obj ("ticket" ↪ text "tkt_ab" ⨾ "expires_in" ↪ num 10 ⨾ end)

abbrev board_claims : FirebaseClaims
board_claims = record { uid = some "f1"; email = some "f1" }

ticket_issued : get_websocket_ticket test_env 0 "ab" (some "Bearer f1") [] ≡ (ok issued, store)
unfolding get_websocket_ticket bearer starts_with split same
ticket_issued = refl

token_carried : bearer (some "Bearer f1") ≡ some "f1"
unfolding bearer starts_with split
token_carried = refl

abbrev online : Boards
online = record no_boards { connections = ("f1", 2) ∷ [] }

abbrev open_network : ℕ → Json → Bool
open_network ws message = true

-- A command before the board connects, one while it is connected, and one after it has left.
abbrev board_events : List BoardEvent
board_events =
    sends "B1" (text "1")
    ∷ connects "B1" 1
    ∷ sends "B1" (text "2")
    ∷ disconnects "B1"
    ∷ sends "B1" (text "3")
    ∷ []

abbrev takes_all : ℕ → Json → Bool
takes_all ws c = true

abbrev one_board : ℕ → String
one_board ws = "B1"

run_lem_example :
    let t =
      run takes_all board_events (record { connections = []; pending = []; delivered = [] }) in
    (received one_board "B1" t ++ waiting "B1" t ≡ requested "B1" board_events)
    × IsCaughtUp (lookup "B1" t.connections) (waiting "B1" t)
run_lem_example = run_lem takes_all (λ ws c. refl) one_board board_events "B1" (refl, tt)

late_disconnect_example :
    let t = disconnect "f1" (connect open_network "f1" 3 (connect open_network "f1" 2 no_boards)) in
    let (sent, u) = send_or_queue open_network "f1" command t in
    (sent ≡ false) × (waiting "f1" u ≡ command ∷ []) × (u.delivered ≡ t.delivered)
late_disconnect_example = late_disconnect open_network "f1" 2 3 command no_boards

-- The ticket "tkt_ab" is issued once, and tried three times.
abbrev tries : List Event
tries =
    asks 0 "ab" (some "Bearer f1")
    ∷ opens_board 5 "f2" "tkt_ab"
    ∷ opens_board 6 "f1" "tkt_ab"
    ∷ opens_session 7 "tkt_ab"
    ∷ []

opened-le-issued_example :
    opened test_env "tkt_ab" tries [] ≤ Trace.issued test_env "tkt_ab" tries []
opened-le-issued_example = opened-le-issued test_env "tkt_ab" tries
