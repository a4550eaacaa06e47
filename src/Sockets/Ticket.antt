-- ===== src/Sockets/Ticket.antt =====
-- `_tickets`, POST /api/v1/websocket/ticket, and the checks that both socket routes make first.
pub mod Laws
pub mod Trace
use intelli_attend_smart_boa.Base.{
  ℕ, ◌+◌, String, Bool, true, false, not, Option, none, some, ltb, same, or_else, if◌then◌else◌,
  ◌^^◌,
}
use intelli_attend_smart_boa.Dict.{Dict, lookup, insert, erase}
use intelli_attend_smart_boa.Json.{Json, num, text, obj, end, ◌↪◌⨾◌}
use intelli_attend_smart_boa.Http.{Error, http, Action, pure, raise, modify, ◌>>=◌, ◌>>◌}
use intelli_attend_smart_boa.Models.{seconds}
use intelli_attend_smart_boa.Env.{Env, FirebaseClaims}
use intelli_attend_smart_boa.Security.{bearer}

pub record TicketData : Type 0 where
  pub board_id : String
  pub expires_at : ℕ

abbrev pub Tickets : Type 0
Tickets = Dict TicketData

-- `_generate_ticket`, for the drawn hexadecimal text
abbrev pub ticket_of : String → String
ticket_of hex = "tkt_" ^^ hex

-- `decoded.get("uid", "unknown")`
abbrev pub uid_of : FirebaseClaims → String
uid_of c = elim (c.uid) [ none ↦ "unknown" | some u ↦ u ]

-- `get_websocket_ticket`
unfoldable pub get_websocket_ticket : Env → ℕ → (hex : String) → Option String → Action Tickets Json
get_websocket_ticket env now hex authorization = elim (bearer authorization) [
  | none ↦ raise (http 401 "Missing or invalid Authorization header")
  | some token ↦ elim (env.verify_id_token token) [
    | none ↦ raise (http 401 "Invalid Firebase ID token")
    | some decoded ↦ do
      modify (
          insert (ticket_of hex)
            (record { board_id = uid_of decoded; expires_at = now + seconds 10 }))
      pure (obj ("ticket" ↪ text (ticket_of hex) ⨾ "expires_in" ↪ num 10 ⨾ end))
  ]
]

-- A socket is accepted, or closed with code 1008 and a reason.
pub data Opening : Type 0 where
  accepted : Opening
  closed : String → Opening

-- The first checks of `session_websocket`. The ticket is taken out of the store whatever follows.
unfoldable pub redeem_session : ℕ → String → Tickets → Opening × Tickets
redeem_session now ticket store = (
  elim (lookup ticket store) [
    | none ↦ closed "Invalid or expired ticket"
    | some t ↦ if ltb t.expires_at now then closed "Ticket expired" else accepted
  ],
  erase ticket store,
)

-- The first checks of `board_websocket`.
unfoldable pub redeem_board : ℕ → (board_id ticket : String) → Tickets → Opening × Tickets
redeem_board now board ticket store = (
  elim (lookup ticket store) [
    | none ↦ closed "Invalid or expired ticket"
    | some t ↦
        if ltb t.expires_at now
        then closed "Ticket expired"
        else if not (same t.board_id board)
        then closed "Board ID mismatch"
        else accepted
  ],
  erase ticket store,
)
