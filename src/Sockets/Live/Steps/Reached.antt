-- ===== src/Sockets/Live/Steps/Reached.antt =====
-- No socket outlives its handler, however the handlers interleave.
use intelli_attend_smart_boa.Base.{
  ℕ, String, ◌≡◌, Bool, true, false, not, none, some, [], ◌||◌, arith, Option-cases, inl, inr,
}
use intelli_attend_smart_boa.Dict.{lookup}
use intelli_attend_smart_boa.Json.{Json}
use intelli_attend_smart_boa.Env.{Env}
use intelli_attend_smart_boa.Attendance.{World}
use intelli_attend_smart_boa.Sockets.Boards.{Boards}
use intelli_attend_smart_boa.Sockets.Ticket.{redeem_session, redeem_board}
use intelli_attend_smart_boa.Sockets.Live.{session_start, session_round, board_round}
use intelli_attend_smart_boa.Sockets.Live.Steps.{
  Handler, is_open, System, session_goes_on, board_goes_on, open_session, open_board, hear_session,
  hear_board, Step, opens_session, opens_board, hears_session, hears_board, tickets_change,
  tables_change, broadcasts, commands, Reaches, here, next,
}
use intelli_attend_smart_boa.Sockets.Live.Steps.Laws.{in_room, broadcast-Shrinks}
use intelli_attend_smart_boa.Sockets.Live.Steps.Live.{
  HasSessionHandlers, HasBoardHandlers, IsLive, Opening-cases, open_session_live, hear_session_live,
  open_board_live, hear_board_live, commands_live,
}

module _ (env : Env) (delivers : ℕ → Json → Bool) where
  -- The routes of the two kinds leave each other's sockets alone.
  session_goes_on_boards :
      (h : Handler) (r : Bool × World) (s : System)
      → HasBoardHandlers s.boards s.board_sockets
      → let s' = session_goes_on env delivers h r s in HasBoardHandlers s'.boards s'.board_sockets
  session_goes_on_boards h (true, w) s live = live
  session_goes_on_boards h (false, w) s live = live

  open_session_boards :
      (now : ℕ) (ticket : String) (h : Handler) (s : System)
      → HasBoardHandlers s.boards s.board_sockets
      → let s' = open_session env delivers now ticket h s in
        HasBoardHandlers s'.boards s'.board_sockets
  unfolding open_session
  open_session_boards now ticket (session, ws) s live =
      elim (Opening-cases (redeem_session now ticket s.tickets).0) [
        | inl (reason, e) ↦ rw (e, open_session) live
        | inr e ↦
            rw (e, open_session)
              (session_goes_on_boards (session, ws) (session_start env delivers session ws s.world)
                (record s { tickets = (redeem_session now ticket s.tickets).1 }) live)
      ]

  board_goes_on_sessions :
      (h : Handler) (r : Bool × Boards) (s : System)
      → HasSessionHandlers s.world.rooms s.sessions
      → let s' = board_goes_on env delivers h r s in HasSessionHandlers s'.world.rooms s'.sessions
  board_goes_on_sessions h (true, b) s live = live
  board_goes_on_sessions h (false, b) s live = live

  open_board_sessions :
      (now : ℕ) (ticket : String) (h : Handler) (s : System)
      → HasSessionHandlers s.world.rooms s.sessions
      → let s' = open_board env delivers now ticket h s in
        HasSessionHandlers s'.world.rooms s'.sessions
  unfolding open_board
  open_board_sessions now ticket (board, ws) s live =
      elim (Opening-cases (redeem_board now board ticket s.tickets).0) [
        | inl (reason, e) ↦ rw (e, open_board) live
        | inr e ↦ rw (e, open_board) live
      ]

  Step-IsLive : (s t : System) → Step env delivers s t → IsLive s → IsLive t
  unfolding hear_session hear_board
  Step-IsLive s t (opens_session now ticket h _) (rooms, boards) = (
    open_session_live env delivers now ticket h s rooms,
    open_session_boards now ticket h s boards,
  )
  Step-IsLive s t (opens_board now ticket h _) (rooms, boards) =
      (open_board_sessions now ticket h s rooms, open_board_live env delivers now ticket h s boards)
  Step-IsLive s t (hears_session (session, ws) receipt _ running) (rooms, boards) = (
    hear_session_live env delivers (session, ws) receipt s rooms,
    session_goes_on_boards (session, ws) (session_round env delivers session ws receipt s.world) s
        boards,
  )
  Step-IsLive s t (hears_board (board, ws) receipt _ running) (rooms, boards) = (
    board_goes_on_sessions (board, ws) (board_round env delivers ws receipt s.boards) s rooms,
    hear_board_live env delivers (board, ws) receipt s boards,
  )
  Step-IsLive s t (tickets_change tickets _) live = live
  Step-IsLive s t (tables_change db _) live = live
  Step-IsLive s t (broadcasts session m _) (rooms, boards) = (
    λ x ws there. rooms x ws (broadcast-Shrinks delivers m session s.world.rooms x ws there),
    boards,
  )
  Step-IsLive s t (commands board m _) (rooms, boards) =
      (rooms, commands_live env delivers board m s boards)

  reached-IsLive : (s t : System) → Reaches env delivers s t → IsLive s → IsLive t
  reached-IsLive s t here live = live
  reached-IsLive s t (next {u} path step) live = Step-IsLive u t step (reached-IsLive s u path live)

  -- No socket outlives its handler. From a server without sockets, in whatever order boards open
  -- sockets with whatever tickets, handlers hear messages, time out and lose their clients, and
  -- other routes broadcast, send commands and change the tables: a socket that a session's room
  -- holds has a handler for that session in its loop, and so has the socket that a board is reached
  -- by.
  pub reached_sockets :
      (s t : System)
      → Reaches env delivers s t
      → s.world.rooms.connections ≡ []
      → s.boards.connections ≡ []
      → ((session : String) (ws : ℕ)
          → (not (in_room session ws t.world.rooms) || is_open (session, ws) t.sessions) ≡ true)
        × ((board : String)
            → elim (lookup board t.boards.connections) [
              | none ↦ true
              | some ws ↦ is_open (board, ws) t.board_sockets
            ]
              ≡ true)
  reached_sockets s t path no_rooms no_boards =
      let (rooms, boards) =
        reached-IsLive s t path
          (λ session ws there. absurd (ground arith), λ board ws there. absurd (ground arith)) in
      (
        λ session ws. ground (arith, rooms session ws),
        λ board. elim (Option-cases (lookup board t.boards.connections)) [
          | inl e ↦ ground arith
          | inr (ws, e) ↦ ground (arith, boards board ws e)
        ],
      )
