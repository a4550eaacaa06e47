-- ===== src/Sockets/Live/Steps.antt =====
-- Interleavings of socket handlers with each other and with the routes that use their sockets, as
-- steps. A handler runs from one `await` of a receipt to the next without another's step between.
pub mod Laws
pub mod Live
pub mod Reached
use intelli_attend_smart_boa.Base.{
  ℕ, String, Bool, true, false, not, List, [], ◌∷◌, ◌==◌, ◌&&◌, ◌≡◌, same, some?, keep,
  if◌then◌else◌,
}
use intelli_attend_smart_boa.Json.{Json}
use intelli_attend_smart_boa.Models.{Db}
use intelli_attend_smart_boa.Env.{Env}
use intelli_attend_smart_boa.Attendance.{World}
use intelli_attend_smart_boa.Sockets.Rooms
use intelli_attend_smart_boa.Sockets.Rooms.{Rooms, broadcast}
use intelli_attend_smart_boa.Sockets.Boards
use intelli_attend_smart_boa.Sockets.Boards.{Boards, send_or_queue}
use intelli_attend_smart_boa.Sockets.Ticket.{
  Tickets, Opening, accepted, closed, redeem_session, redeem_board,
}
use intelli_attend_smart_boa.Sockets.Live.{Receipt, session_start, session_round, board_round}

-- A handler in its loop: the session or board of its path, and its socket.
abbrev pub Handler : Type 0
Handler = String × ℕ

abbrev pub same_handler : Handler → Handler → Bool
same_handler (a, x) (b, y) = same a b && x == y

abbrev pub is_open : Handler → List Handler → Bool
is_open h handlers = some? (λ k. same_handler k h) handlers

abbrev pub close : Handler → List Handler → List Handler
close h handlers = keep (λ k. not (same_handler k h)) handlers

-- The state that the handlers share, and the handlers that are in their loops.
pub record System : Type 0 where
  pub tickets : Tickets
  pub world : World
  pub boards : Boards
  pub sessions : List Handler
  pub board_sockets : List Handler

module _ (env : Env) (delivers : ℕ → Json → Bool) where
  -- A handler goes on, or ends by its `finally`.
  abbrev pub session_goes_on : Handler → Bool × World → System → System
  session_goes_on h (true, w) s = record s { world = w; sessions = h ∷ close h s.sessions }
  session_goes_on (session, ws) (false, w) s = record s {
    world = record w { rooms = Rooms.disconnect session ws w.rooms };
    sessions = close (session, ws) s.sessions;
  }

  abbrev pub board_goes_on : Handler → Bool × Boards → System → System
  board_goes_on h (true, b) s = record s { boards = b; board_sockets = h ∷ close h s.board_sockets }
  board_goes_on (board, ws) (false, b) s = record s {
    boards = Boards.disconnect board b;
    board_sockets = close (board, ws) s.board_sockets;
  }

  -- `session_websocket`, up to its loop.
  unfoldable pub open_session : (now : ℕ) → (ticket : String) → Handler → System → System
  unfolding redeem_session session_start
  open_session now ticket (session, ws) s =
      let (opening, tickets) = redeem_session now ticket s.tickets in
      let redeemed : System = record s { tickets = tickets } in
      elim opening [
        | closed reason ↦ redeemed
        | accepted ↦
            session_goes_on (session, ws) (session_start env delivers session ws s.world) redeemed
      ]

  -- `board_websocket`, up to its loop.
  unfoldable pub open_board : (now : ℕ) → (ticket : String) → Handler → System → System
  unfolding redeem_board Boards.connect
  open_board now ticket (board, ws) s =
      let (opening, tickets) = redeem_board now board ticket s.tickets in
      let redeemed : System = record s { tickets = tickets } in
      elim opening [
        | closed reason ↦ redeemed
        | accepted ↦
            board_goes_on (board, ws) (true, Boards.connect delivers board ws s.boards) redeemed
      ]

  -- A round of an open handler.
  unfoldable pub hear_session : Handler → Receipt → System → System
  unfolding session_round
  hear_session (session, ws) receipt s =
      session_goes_on (session, ws) (session_round env delivers session ws receipt s.world) s

  unfoldable pub hear_board : Handler → Receipt → System → System
  unfolding board_round
  hear_board (board, ws) receipt s =
      board_goes_on (board, ws) (board_round env delivers ws receipt s.boards) s

  abbrev pub with_db : Db → System → System
  with_db db s = let w : World = s.world in record s { world = record w { db = db } }

  abbrev pub broadcast_in : String → Json → System → System
  broadcast_in session m s =
      let w : World = s.world in
      record s { world = record w { rooms = broadcast delivers m session w.rooms } }

  -- One step of the system: a socket is opened, a handler hears something, a ticket is issued, or
  -- another route changes the tables, broadcasts to a session, or sends a command.
  pub data Step : System → System → Type 0 where
    opens_session :
        (now : ℕ) (ticket : String) (h : Handler) (s : System)
        → Step s (open_session now ticket h s)
    opens_board :
        (now : ℕ) (ticket : String) (h : Handler) (s : System) → Step s (open_board now ticket h s)
    hears_session :
        (h : Handler) (receipt : Receipt) (s : System)
        → is_open h s.sessions ≡ true
        → Step s (hear_session h receipt s)
    hears_board :
        (h : Handler) (receipt : Receipt) (s : System)
        → is_open h s.board_sockets ≡ true
        → Step s (hear_board h receipt s)
    tickets_change : (tickets : Tickets) (s : System) → Step s (record s { tickets = tickets })
    tables_change : (db : Db) (s : System) → Step s (with_db db s)
    broadcasts : (session : String) (m : Json) (s : System) → Step s (broadcast_in session m s)
    commands :
        (board : String) (m : Json) (s : System)
        → Step s (record s { boards = (send_or_queue delivers board m s.boards).1 })

  -- The systems that a sequence of steps leads to.
  pub data Reaches (r : System) : System → Type 0 where
    here : Reaches r r
    next : {u v : System} → Reaches r u → Step u v → Reaches r v
