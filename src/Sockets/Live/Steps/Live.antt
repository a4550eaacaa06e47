-- ===== src/Sockets/Live/Steps/Live.antt =====
-- What each step leaves: a socket in a room, or of a board, has its handler in its loop.
use intelli_attend_smart_boa.Base.{
  ℕ, String, ◌≡◌, refl, Bool, true, false, not, ◌⊎◌, some, List, [], ◌∷◌, ◌&&◌, ◌||◌, same_iff,
  arith, inl, inr,
}
use intelli_attend_smart_boa.Dict.{lookup, lookup-insert, lookup-erase}
use intelli_attend_smart_boa.Json.{Json}
use intelli_attend_smart_boa.Env.{Env}
use intelli_attend_smart_boa.Attendance.{World}
use intelli_attend_smart_boa.Sockets.Rooms
use intelli_attend_smart_boa.Sockets.Rooms.{Rooms, broadcast}
use intelli_attend_smart_boa.Sockets.Boards
use intelli_attend_smart_boa.Sockets.Boards.{Boards, send_or_queue}
use intelli_attend_smart_boa.Sockets.Ticket.{redeem_session, accepted, closed, Opening}
use intelli_attend_smart_boa.Sockets.Live.{
  Receipt, message, timeout, gone, session_start, session_round, board_round, full_state_sync,
}
use intelli_attend_smart_boa.Sockets.Live.Steps.{
  Handler, same_handler, is_open, close, System, session_goes_on, board_goes_on, open_session,
  open_board, hear_session, hear_board,
}
use intelli_attend_smart_boa.Sockets.Live.Steps.Laws.{
  in_room, in_room-connect, in_room-disconnect, reply-Shrinks, session_round-Shrinks,
}

is_open-close :
    (h k : Handler) (hs : List Handler)
    → is_open k (close h hs) ≡ (is_open k hs && not (same_handler h k))
is_open-close h k [] = ground arith
is_open-close (a, x) (b, y) ((c, z) ∷ hs) =
    ground (arith, same_iff a b, same_iff c b, same_iff c a, is_open-close (a, x) (b, y) hs)

-- Every socket in a room has its handler in its loop.
abbrev pub HasSessionHandlers : Rooms → List Handler → Type 0
HasSessionHandlers rooms handlers =
    (session : String) (ws : ℕ)
    → in_room session ws rooms ≡ true
    → is_open (session, ws) handlers ≡ true

-- So has every board's socket.
abbrev pub HasBoardHandlers : Boards → List Handler → Type 0
HasBoardHandlers boards handlers =
    (board : String) (ws : ℕ)
    → lookup board boards.connections ≡ some ws
    → is_open (board, ws) handlers ≡ true

abbrev pub IsLive : System → Type 0
IsLive s = HasSessionHandlers s.world.rooms s.sessions × HasBoardHandlers s.boards s.board_sockets

pub Opening-cases : (o : Opening) → ((reason : String) × (o ≡ closed reason)) ⊎ (o ≡ accepted)
Opening-cases (closed reason) = inl (reason, refl)
Opening-cases accepted = inr refl

module _ (env : Env) (delivers : ℕ → Json → Bool) where
  -- A handler whose room has gained no other socket than its own.
  session_goes_on_live :
      (h : Handler) (r : Bool × World) (s : System)
      → HasSessionHandlers s.world.rooms s.sessions
      → ((t : String) (x : ℕ)
          → in_room t x r.1.rooms ≡ true
          → (in_room t x s.world.rooms || same_handler h (t, x)) ≡ true)
      → let s' = session_goes_on env delivers h r s in HasSessionHandlers s'.world.rooms s'.sessions
  session_goes_on_live (session, ws) (true, w) s live within t x there =
      ground (arith, live t x, within t x, is_open-close (session, ws) (t, x) s.sessions)
  session_goes_on_live (session, ws) (false, w) s live within t x there = ground (
    arith,
    live t x,
    within t x,
    in_room-disconnect session t ws x w.rooms,
    is_open-close (session, ws) (t, x) s.sessions,
  )

  start_within :
      (session : String) (ws : ℕ) (w : World) (t : String) (x : ℕ)
      → in_room t x (session_start env delivers session ws w).1.rooms ≡ true
      → (in_room t x w.rooms || same_handler (session, ws) (t, x)) ≡ true
  unfolding session_start
  start_within session ws w t x there =
      let joined = record w { rooms = Rooms.connect session ws w.rooms } in
      ground (
        arith,
        reply-Shrinks env delivers ws (full_state_sync env session w.db) joined t x there,
        in_room-connect session t ws x w.rooms,
      )

  pub open_session_live :
      (now : ℕ) (ticket : String) (h : Handler) (s : System)
      → HasSessionHandlers s.world.rooms s.sessions
      → let s' = open_session env delivers now ticket h s in
        HasSessionHandlers s'.world.rooms s'.sessions
  unfolding open_session
  open_session_live now ticket (session, ws) s live =
      elim (Opening-cases (redeem_session now ticket s.tickets).0) [
        | inl (reason, e) ↦ rw (e, open_session) live
        | inr e ↦
            rw (e, open_session)
              (session_goes_on_live (session, ws) (session_start env delivers session ws s.world)
                (record s { tickets = (redeem_session now ticket s.tickets).1 }) live
                (start_within session ws s.world))
      ]

  pub hear_session_live :
      (h : Handler) (receipt : Receipt) (s : System)
      → HasSessionHandlers s.world.rooms s.sessions
      → let s' = hear_session env delivers h receipt s in
        HasSessionHandlers s'.world.rooms s'.sessions
  unfolding hear_session
  hear_session_live (session, ws) receipt s live =
      session_goes_on_live (session, ws) (session_round env delivers session ws receipt s.world) s
        live
        (λ t x there.
          ground (arith, session_round-Shrinks env delivers session ws receipt s.world t x there))

  pub open_board_live :
      (now : ℕ) (ticket : String) (h : Handler) (s : System)
      → HasBoardHandlers s.boards s.board_sockets
      → let s' = open_board env delivers now ticket h s in
        HasBoardHandlers s'.boards s'.board_sockets
  unfolding open_board Boards.connect
  open_board_live now ticket (board, ws) s live b x there = ground (
    arith,
    live b x,
    same_iff board b,
    lookup-insert board b ws s.boards.connections,
    is_open-close (board, ws) (b, x) s.board_sockets,
  )

  board_goes_on_live :
      (h : Handler) (r : Bool × Boards) (s : System)
      → HasBoardHandlers s.boards s.board_sockets
      → r.1.connections ≡ s.boards.connections
      → let s' = board_goes_on env delivers h r s in HasBoardHandlers s'.boards s'.board_sockets
  unfolding Boards.disconnect
  board_goes_on_live (board, ws) (true, boards) s live kept b x there =
      ground (arith, live b x, is_open-close (board, ws) (b, x) s.board_sockets)
  board_goes_on_live (board, ws) (false, boards) s live kept b x there = ground (
    arith,
    live b x,
    same_iff board b,
    lookup-erase board b boards.connections,
    is_open-close (board, ws) (b, x) s.board_sockets,
  )

  connections-board_round :
      (ws : ℕ) (receipt : Receipt) (b : Boards)
      → (board_round env delivers ws receipt b).1.connections ≡ b.connections
  unfolding board_round
  connections-board_round ws timeout b = refl
  connections-board_round ws gone b = refl
  connections-board_round ws (message raw now commits error) b = ground arith

  pub hear_board_live :
      (h : Handler) (receipt : Receipt) (s : System)
      → HasBoardHandlers s.boards s.board_sockets
      → let s' = hear_board env delivers h receipt s in HasBoardHandlers s'.boards s'.board_sockets
  unfolding hear_board
  hear_board_live (board, ws) receipt s live =
      board_goes_on_live (board, ws) (board_round env delivers ws receipt s.boards) s live
        (connections-board_round ws receipt s.boards)

  pub commands_live :
      (board : String) (m : Json) (s : System)
      → HasBoardHandlers s.boards s.board_sockets
      → HasBoardHandlers (send_or_queue delivers board m s.boards).1 s.board_sockets
  unfolding send_or_queue
  commands_live board m s live b x there =
      ground (arith, live b x, lookup-erase board b s.boards.connections)
