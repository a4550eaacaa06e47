-- ===== src/Sockets/Live/Tests.antt =====
-- A board opens the socket of a session with a ticket, and leaves.
use intelli_attend_smart_boa.Base.{ℕ, String, same, ◌≡◌, refl, true, none, some, not, [], ◌∷◌, ◌||◌}
use intelli_attend_smart_boa.Dict.{lookup}
use intelli_attend_smart_boa.Fixtures.{test_env, empty_db, first_broken}
use intelli_attend_smart_boa.Sockets.Live.{gone}
use intelli_attend_smart_boa.Sockets.Live.Steps.{
  System, Reaches, here, next, opens_session, hears_session, open_session, hear_session, is_open,
}
use intelli_attend_smart_boa.Sockets.Live.Steps.Laws.{in_room}
use intelli_attend_smart_boa.Sockets.Live.Steps.Reached.{reached_sockets}

abbrev server : System
server = record {
  tickets = ("tkt_a", record { board_id = "u1"; expires_at = 10 }) ∷ [];
  world = record { db = empty_db; rooms = record { connections = []; delivered = [] } };
  boards = record { connections = []; pending = []; delivered = [] };
  sessions = [];
  board_sockets = [];
}

abbrev opened : System
opened = open_session test_env first_broken 5 "tkt_a" ("SESS_1", 2) server

abbrev left : System
left = hear_session test_env first_broken ("SESS_1", 2) gone opened

opened_is_open : is_open ("SESS_1", 2) opened.sessions ≡ true
unfolding open_session same
opened_is_open = refl

path : Reaches test_env first_broken server left
path =
    next (next here (opens_session 5 "tkt_a" ("SESS_1", 2) server))
      (hears_session ("SESS_1", 2) gone opened opened_is_open)

reached_sockets_example :
    ((session : String) (ws : ℕ)
      → (not (in_room session ws left.world.rooms) || is_open (session, ws) left.sessions) ≡ true)
    × ((board : String)
        → elim (lookup board left.boards.connections) [
          | none ↦ true
          | some ws ↦ is_open (board, ws) left.board_sockets
        ]
          ≡ true)
reached_sockets_example = reached_sockets test_env first_broken server left path refl refl
