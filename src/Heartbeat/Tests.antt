-- ===== src/Heartbeat/Tests.antt =====
-- A heartbeat of the board "u1".
use intelli_attend_smart_boa.Json.{natural}
use intelli_attend_smart_boa.Base.{String, ◌≡◌, ◌≢◌, none, some, [], ◌∷◌, ◌++◌, find, length}
use intelli_attend_smart_boa.Http.{http, ok, err}
use intelli_attend_smart_boa.Json.{Json}
use intelli_attend_smart_boa.Models.{Db, AuthStatus}
use intelli_attend_smart_boa.Security.{BoardData, board_data_of}
use intelli_attend_smart_boa.Fixtures.{test_env, fleet_db, board_user}
use intelli_attend_smart_boa.Fleet.Report.{for_version, new_version}
use intelli_attend_smart_boa.Base.{count_where, not}
use intelli_attend_smart_boa.Heartbeat.Laws.{is_silent}
use intelli_attend_smart_boa.Heartbeat.{
  is_stale, HeartbeatV2Request, ConfigVariables, heartbeat_row, seen, board_heartbeat,
  get_heartbeat_status, get_stale_boards,
}
use intelli_attend_smart_boa.Heartbeat.Laws.{board_heartbeat_lem, heartbeat_status_counts}

abbrev beat : HeartbeatV2Request
beat = record {
  board_id = "u1";
  screen_state = "on";
  uptime_seconds = 60;
  app_version = "1.2.0";
  timestamp = "";
}

abbrev variables : ConfigVariables
variables = record {
  config_version = 1;
  enable_video_background = "false";
  enable_documents = "true";
  qr_rotation_interval_ms = 5000;
  session_window_seconds = 300;
  branding_title = "Board";
  welcome_text = "Welcome";
  app_version = "5.4.0";
  update = record {
    minimum_version = "";
    url = "";
    sha256 = "";
    force = "true";
    rollout_percentage = natural 100;
    release_notes = "";
  };
}

abbrev board : BoardData
board = board_data_of (board_user AuthStatus.active)

abbrev beaten_db : Db
beaten_db = (board_heartbeat test_env 100 101 variables board beat fleet_db).1

board_heartbeat_lem_example :
    let (r, db') = board_heartbeat test_env 100 101 variables board beat fleet_db in
    (beat.board_id ≢ board.user_id
      → (r ≡ err (http 403 "Board ID does not match authenticated board")) × (db' ≡ fleet_db))
    × (beat.board_id ≡ board.user_id
        → ((answer : Json) × (r ≡ ok answer))
          × (db'.heartbeats ≡ fleet_db.heartbeats ++ heartbeat_row 100 "u1" beat ∷ [])
          × (find (for_version "u1") db'.versions
              ≡ elim (find (for_version "u1") fleet_db.versions) [
                | none ↦ some (seen 100 "1.2.0" (new_version "u1"))
                | some bv ↦ some (seen 100 "1.2.0" bv)
              ])
          × ((other : String)
              → board.user_id ≢ other
              → find (for_version other) db'.versions ≡ find (for_version other) fleet_db.versions))
board_heartbeat_lem_example = board_heartbeat_lem test_env 100 101 variables board beat fleet_db

heartbeat_status_counts_example :
    let status = get_heartbeat_status test_env 200 beaten_db in
    let (count, stale) = get_stale_boards test_env 200 beaten_db in
    (status.total_boards ≡ length beaten_db.heartbeats)
    × ((status.stale_boards ≡ count_where (is_silent 200) beaten_db.heartbeats)
        × ((status.healthy_boards ≡ count_where (λ hb. not (is_silent 200 hb)) beaten_db.heartbeats)
            × ((count ≡ count_where (is_silent 200) beaten_db.heartbeats)
                × ((length stale ≡ count) × (count_where is_stale stale ≡ count)))))
heartbeat_status_counts_example = heartbeat_status_counts test_env 200 beaten_db
