-- ===== src/Session/Tests.antt =====
-- An initiation with an OTP that the cache knows, and a round of the monitor.
use Prim.Native.String.{count}
use intelli_attend_smart_boa.Base.{
  ℕ, ◌+◌, ◌<◌, ◌==◌, ◌≡◌, refl, ◌↔◌, true, none, some, [], ◌∷◌, String, arith,
}
use intelli_attend_smart_boa.Json.{Fields}
use intelli_attend_smart_boa.Http.{Error, http, ok, err}
use intelli_attend_smart_boa.Models.{Db, AuthStatus, SessionStatus, BoardHeartbeat, minutes}
use intelli_attend_smart_boa.Security.{board_data_of, BoardData}
use intelli_attend_smart_boa.Cache.{Redis}
use intelli_attend_smart_boa.Fixtures.{
  test_env, empty_db, session_row, board_user, room_of_two, first_broken,
}
use intelli_attend_smart_boa.Session.{World, find_session_by_otp}
use intelli_attend_smart_boa.Session.Routes.{
  SessionInitiateRequest, plain_otp, initiate_session, terminate_session,
}
use intelli_attend_smart_boa.Session.Initiate.{initiate_session_refused}
use intelli_attend_smart_boa.Session.Lifecycle.{
  Reaches, here, next, terminates, initiates, HasUniqueIds, IsIdle, reached_sessions,
}
use intelli_attend_smart_boa.Session.Monitor.{monitor_round}
use intelli_attend_smart_boa.Session.Monitor.Laws.{newest, listed, monitor_round_alerts}

-- A server that holds one text under every key.
abbrev holding : Redis String
holding = record {
  available = true;
  ping = λ s. true;
  get = λ key s. some (some s);
  setex = λ key ttl value s. some value;
  delete = λ key s. some "";
}

abbrev heartbeat : BoardHeartbeat
heartbeat = record {
  board_id = "B1";
  screen_state = none;
  uptime_seconds = 60;
  app_version = none;
  last_heartbeat_at = 7;
}

abbrev school_db : Db
school_db = record empty_db { sessions = session_row ∷ []; heartbeats = heartbeat ∷ [] }

abbrev world : World String
world = record {
  db = school_db;
  cache = record { client = true; local = []; server = "{}" };
  rooms = room_of_two;
}

abbrev board : BoardData
board = board_data_of (board_user AuthStatus.active)

abbrev request : SessionInitiateRequest
request = record { otp = "123456" }

initiate_session_refused_example :
    let (r, w') = initiate_session holding test_env 9 board request world in
    (e : Error) × (r ≡ err e)
    × (w'.db ≡ school_db)
    × (w'.rooms ≡ room_of_two)
    × ((f : Fields)
        → (count request.otp == 6) ≡ true
        → (find_session_by_otp holding test_env (plain_otp request.otp) world).0 ≡ ok (some f)
        → e ≡ http 400 "Bad Request")
initiate_session_refused_example = initiate_session_refused holding test_env 9 board request world

monitor_round_alerts_example : (listed "B1" (monitor_round 2_000_000_000 school_db).1 ≡ true) ↔ (
    (t : ℕ) × (newest "B1" none school_db.heartbeats ≡ some t) × (t + minutes 30 < 2_000_000_000))
monitor_round_alerts_example = monitor_round_alerts 2_000_000_000 school_db "B1"

abbrev quiet_db : Db
quiet_db = record empty_db {
  sessions = record session_row { status = SessionStatus.pre_allocated } ∷ [];
}

abbrev quiet : World String
quiet = record world { db = quiet_db }

abbrev ended : World String
ended = (terminate_session holding test_env first_broken 9 "SESS_1" quiet).1

abbrev initiated : World String
initiated = (initiate_session holding test_env 9 board request ended).1

two_requests : Reaches holding test_env first_broken quiet initiated
two_requests = next (next here (terminates 9 "SESS_1" refl)) (initiates 9 board request refl)

quiet-HasUniqueIds : HasUniqueIds quiet_db.sessions
quiet-HasUniqueIds k = ground arith

reached_sessions_example : HasUniqueIds initiated.db.sessions × IsIdle initiated.db.sessions
reached_sessions_example =
    reached_sessions holding test_env first_broken quiet initiated two_requests quiet-HasUniqueIds
      refl
