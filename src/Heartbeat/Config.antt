-- ===== src/Heartbeat/Config.antt =====
-- The heartbeat of a board and the configuration that answers it.
use intelli_attend_smart_boa.Base.{
  ℕ, String, Bool, true, false, not, Option, none, some, [], ◌∷◌, ◌++◌, ◌&&◌, same, find, ◌^^◌,
}
use intelli_attend_smart_boa.Json.{Json, null, bool, num, text, obj, end, ◌↪◌⨾◌}
use intelli_attend_smart_boa.Http.{http, Action, pure, gets, raise_if, modify, ◌>>=◌, ◌>>◌, get_db}
use intelli_attend_smart_boa.Models.{Db, BoardHeartbeat, BoardVersion, ActiveSession, SessionStatus}
use intelli_attend_smart_boa.Env.{Env}
use intelli_attend_smart_boa.Security.{BoardData}
use intelli_attend_smart_boa.Fleet.Release.{UpdateVariables, force_update}
use intelli_attend_smart_boa.Fleet.Report.{new_version, upsert_version}
use intelli_attend_smart_boa.Session.{status_value}

-- `HeartbeatV2Request`
pub record HeartbeatV2Request : Type 0 where
  pub board_id : String
  pub screen_state : String
  pub uptime_seconds : ℕ
  pub app_version : String
  pub timestamp : String

-- The environment's variables of the configuration, with their defaults filled in; those that the
-- source passes through `int` are numbers.
pub record ConfigVariables : Type 0 where
  pub config_version : ℕ
  pub enable_video_background : String
  pub enable_documents : String
  pub qr_rotation_interval_ms : ℕ
  pub session_window_seconds : ℕ
  pub branding_title : String
  pub welcome_text : String
  pub app_version : String
  pub update : UpdateVariables

abbrev pub heartbeat_row : ℕ → String → HeartbeatV2Request → BoardHeartbeat
heartbeat_row now board q = record {
  board_id = board;
  screen_state = some q.screen_state;
  uptime_seconds = q.uptime_seconds;
  app_version = some q.app_version;
  last_heartbeat_at = now;
}

-- The new version and time in the board's row.
abbrev pub seen : ℕ → String → BoardVersion → BoardVersion
seen now version bv = record bv { current_version = some version; last_heartbeat_at = some now }

-- `ActiveSession.room_id == board_data.get("room_id", "")`: a comparison with `None` is IS NULL.
abbrev pub same_room : Option String → Option String → Bool
same_room none none = true
same_room (some a) (some b) = same a b
same_room _ _ = false

abbrev pub is_current : SessionStatus → Bool
is_current SessionStatus.active = true
is_current SessionStatus.completed = true
is_current _ = false

-- The session of the board's room.
unfoldable pub current_session : Option String → Db → Option ActiveSession
current_session room db =
    find (λ (s : ActiveSession). same_room s.room_id room && is_current s.status) db.sessions

abbrev pub session_json : Option ActiveSession → Json
session_json none = null
session_json (some s) =
    obj ("session_id" ↪ text s.session_id ⨾ "status" ↪ text (status_value s.status) ⨾ end)

module _ (env : Env) where
  -- `_build_board_config`
  unfoldable pub build_board_config : ℕ → ConfigVariables → Db → Json
  unfolding force_update
  build_board_config now vars db = obj (
      "config_version"
      ↪ num vars.config_version ⨾ "flags"
      ↪ obj (
          "enable_video_background"
          ↪ bool (same (env.lower vars.enable_video_background) "true") ⨾ "enable_documents"
          ↪ bool (same (env.lower vars.enable_documents) "true") ⨾ "enable_notifications"
          ↪ bool true ⨾ "enable_workspace"
          ↪ bool true ⨾ "kiosk_mode"
          ↪ text "fullscreen" ⨾ "qr_rotation_interval_ms"
          ↪ num vars.qr_rotation_interval_ms ⨾ "session_window_seconds"
          ↪ num vars.session_window_seconds ⨾ "idle_theme"
          ↪ text "dark" ⨾ end) ⨾
        "ui"
      ↪ obj (
          "branding"
          ↪ obj ("title" ↪ text vars.branding_title ⨾ end) ⨾ "labels"
          ↪ obj (
              "welcome_text"
              ↪ text vars.welcome_text ⨾ "footer_text"
              ↪ text ("v" ^^ vars.app_version) ⨾ end) ⨾
            end) ⨾
        "issued_at"
      ↪ text (env.isoformat now) ⨾ "force_update"
      ↪ force_update env now vars.update db.manifests ⨾ end)

  -- `board_heartbeat_v2`, for the authenticated board; `later` is the time of the configuration.
  unfoldable pub board_heartbeat :
      (now later : ℕ) → ConfigVariables → BoardData → HeartbeatV2Request → Action Db Json
  unfolding upsert_version current_session build_board_config
  board_heartbeat now later vars board q = get_db (do
    raise_if (not (same q.board_id board.user_id))
        (http 403 "Board ID does not match authenticated board")
    modify (λ db. record db {
      heartbeats = db.heartbeats ++ heartbeat_row now board.user_id q ∷ [];
      versions =
          upsert_version board.user_id (seen now q.app_version (new_version board.user_id))
            (seen now q.app_version) db.versions;
    })
    active ← gets (current_session board.room_id)
    config ← gets (build_board_config later vars)
    pure (
        obj (
          "status"
          ↪ text "ok" ⨾ "server_time"
          ↪ text (env.isoformat now) ⨾ "session"
          ↪ session_json active ⨾ "config"
          ↪ config ⨾ end)))

  -- `get_board_config`, for an authenticated board
  unfoldable pub get_board_config : ℕ → ConfigVariables → Action Db Json
  unfolding build_board_config
  get_board_config now vars = get_db (gets (build_board_config now vars))
