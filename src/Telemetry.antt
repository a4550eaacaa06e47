-- ===== src/Telemetry.antt =====
-- The small routes of a board in backend/python/main.py: time, telemetry, the boot check, its own
-- data, the resource lists, and the health probe. Each stands behind its dependencies.
pub mod Laws
mod Tests
use intelli_attend_smart_boa.Base.{
  ℕ, ◌+◌, ◌-◌, ◌/◌, String, Option, none, some, List, [], ◌∷◌, ◌++◌, ◌^^◌, or_else,
}
use intelli_attend_smart_boa.Json.{Json, Items, num, text, arr, obj, nil, end, optional, ◌↪◌⨾◌}
use intelli_attend_smart_boa.Http.{Action, pure, modify, ◌>>=◌, ◌>>◌, get_db}
use intelli_attend_smart_boa.Models.{Db, BoardHeartbeat, AuthStatus}
use intelli_attend_smart_boa.Env.{Env}
use intelli_attend_smart_boa.Security.{BoardData}

-- `TelemetryPayload`, whose optional numbers no code reads
pub record TelemetryPayload : Type 0 where
  pub board_id : String
  pub app_version : String

-- `payload.model_dump().get("screen_state", "telemetry")` and `.get("uptime_seconds", 0)` are their
-- defaults, since the payload has no such fields.
abbrev pub telemetry_row : ℕ → BoardData → TelemetryPayload → BoardHeartbeat
telemetry_row now board payload = record {
  board_id = board.user_id;
  screen_state = some "telemetry";
  uptime_seconds = 0;
  app_version = some payload.app_version;
  last_heartbeat_at = now;
}

-- `receive_telemetry`, for the authenticated board
unfoldable pub receive_telemetry : ℕ → BoardData → TelemetryPayload → Action Db Json
receive_telemetry now board payload = get_db (do
  modify (λ db. record db { heartbeats = db.heartbeats ++ telemetry_row now board payload ∷ [] })
  pure (obj ("status" ↪ text "success" ⨾ end)))

-- `sync_server_time`: the milliseconds of the server's clock. The time that is reported as sent is
-- made up.
unfoldable pub sync_server_time : (now client_timestamp_ms : ℕ) → Json
sync_server_time now client_timestamp_ms =
    let received_ms = now / 1000 in
    let server_sent_ms = received_ms + 1 in
    obj (
      "server_timestamp_ms"
      ↪ num server_sent_ms ⨾ "server_received_at_ms"
      ↪ num received_ms ⨾ "client_timestamp_ms"
      ↪ num client_timestamp_ms ⨾ "processing_duration_ms"
      ↪ num (server_sent_ms - received_ms) ⨾ "realm"
      ↪ text "UTC" ⨾ end)

-- `board_ready`
unfoldable pub board_ready : BoardData → Json
board_ready board = obj ("status" ↪ text "registered" ⨾ "board_id" ↪ text board.user_id ⨾ end)

-- `get_my_resources` and `get_college_resources`, whose parameters are not read
unfoldable pub get_my_resources : (session_id section_id course_name : String) → Json
get_my_resources session_id section_id course_name = arr nil

unfoldable pub get_college_resources : (course_name : String) → Json
get_college_resources course_name = arr nil

-- A check of the probe: `none`, or the text of what was raised.
abbrev pub outcome : Option String → String
outcome none = "ok"
outcome (some error) = "error: " ^^ error

abbrev pub health_of : Option String → String
health_of none = "healthy"
health_of (some error) = "degraded"

-- `health_check`, for what the two probes gave: the answer has no status of its own, so it is 200.
unfoldable pub health_check : Env → ℕ → (postgres redis : Option String) → ℕ × Json
health_check env now postgres redis = (
  200,
  obj (
      "status"
      ↪ text (health_of postgres) ⨾ "checks"
      ↪ obj ("postgres" ↪ text (outcome postgres) ⨾ "redis" ↪ text (outcome redis) ⨾ end) ⨾
        "timestamp"
      ↪ text (env.isoformat now) ⨾ end),
)

abbrev pub auth_value : AuthStatus → String
auth_value AuthStatus.pending = "pending"
auth_value AuthStatus.active = "active"
auth_value AuthStatus.suspended = "suspended"

-- `sync_context`: the dict of the dependency, for the authenticated board
unfoldable pub sync_context : BoardData → Json
sync_context board = obj (
    "status"
    ↪ text "success" ⨾ "data"
    ↪ obj (
        "user_id"
        ↪ text board.user_id ⨾ "email"
        ↪ text board.email ⨾ "name"
        ↪ text board.name ⨾ "room_id"
        ↪ optional board.room_id ⨾ "institution_id"
        ↪ optional board.institution_id ⨾ "auth_status"
        ↪ text (auth_value board.auth_status) ⨾ "smart_board_id"
        ↪ optional board.smart_board_id ⨾ end) ⨾
      end)
