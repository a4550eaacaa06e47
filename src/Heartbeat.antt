-- ===== src/Heartbeat.antt =====
-- POST /api/v1/board/heartbeat with its configuration block, and GET /api/v1/admin/heartbeats, in
-- backend/python/main.py and backend/python/services/board_service.py.
mod Config
pub mod Laws
mod Tests
unfoldable pub use Config.*
use intelli_attend_smart_boa.Base.{
  ℕ, ◌+◌, ◌-◌, String, Bool, true, false, not, Option, none, some, List, [], ◌∷◌, ◌++◌, ◌||◌, ◌&&◌,
  same, find, ltb, or_else, length, count_where, keep, if◌then◌else◌, ◌^^◌,
}
use mathlib.Core.Option
use intelli_attend_smart_boa.Base.{map}
use intelli_attend_smart_boa.Json.{
  Json, Items, null, bool, num, text, arr, obj, nil, cons, end, ◌↪◌⨾◌,
}
use intelli_attend_smart_boa.Http.{http, Action, pure, gets, raise_if, modify, ◌>>=◌, ◌>>◌, get_db}
use intelli_attend_smart_boa.Models.{
  Db, User, BoardHeartbeat, BoardVersion, ActiveSession, SessionStatus, minutes,
}
use intelli_attend_smart_boa.Env.{Env}
use intelli_attend_smart_boa.Security.{BoardData}
use intelli_attend_smart_boa.Fleet.Release.{UpdateVariables, force_update}
use intelli_attend_smart_boa.Fleet.Report.{new_version, upsert_version}
use intelli_attend_smart_boa.Session.{status_value}

-- `order_by(last_heartbeat_at.desc())`
unfoldable pub place : BoardHeartbeat → List BoardHeartbeat → List BoardHeartbeat
place hb [] = hb ∷ []
place hb (x ∷ rest) =
    if ltb x.last_heartbeat_at hb.last_heartbeat_at then hb ∷ x ∷ rest else x ∷ place hb rest

unfoldable pub newest_first : List BoardHeartbeat → List BoardHeartbeat
unfolding place
newest_first [] = []
newest_first (hb ∷ rest) = place hb (newest_first rest)

-- One dict of `get_all_status_pg`.
pub record Status : Type 0 where
  pub board_id : String
  pub board_name : String
  pub email : String
  pub last_heartbeat_at : String
  pub screen_state : String
  pub app_version : String
  pub uptime_seconds : ℕ
  pub stale : Bool

abbrev pub status_of : Env → ℕ → List User → BoardHeartbeat → Status
status_of env now users hb =
    let board = find (λ (u : User). same u.id hb.board_id) users in
    record {
      board_id = hb.board_id;
      board_name = elim board [ none ↦ "Unknown" | some u ↦ u.name ];
      email = elim board [ none ↦ "" | some u ↦ u.email ];
      last_heartbeat_at = env.isoformat hb.last_heartbeat_at;
      screen_state = or_else hb.screen_state "unknown";
      app_version = or_else hb.app_version "unknown";
      uptime_seconds = hb.uptime_seconds;
      stale = ltb (hb.last_heartbeat_at + minutes 5) now;
    }

unfoldable pub all_statuses : Env → ℕ → List User → List BoardHeartbeat → List Status
all_statuses env now users [] = []
all_statuses env now users (hb ∷ rest) =
    status_of env now users hb ∷ all_statuses env now users rest

-- `HeartbeatService.get_all_status_pg`
unfoldable pub get_all_status : Env → ℕ → Db → List Status
unfolding all_statuses newest_first
get_all_status env now db = all_statuses env now db.users (newest_first db.heartbeats)

-- The answer of `get_heartbeat_status`
pub record HeartbeatStatus : Type 0 where
  pub total_boards : ℕ
  pub stale_boards : ℕ
  pub healthy_boards : ℕ
  pub boards : List Status

abbrev pub is_stale : Status → Bool
is_stale s = s.stale

-- `get_heartbeat_status`
unfoldable pub get_heartbeat_status : Env → ℕ → Db → HeartbeatStatus
unfolding get_all_status
get_heartbeat_status env now db =
    let statuses = get_all_status env now db in
    let stale_count = count_where is_stale statuses in
    record {
      total_boards = length statuses;
      stale_boards = stale_count;
      healthy_boards = length statuses - stale_count;
      boards = statuses;
    }

-- `get_stale_boards`: the count and the list of its answer
unfoldable pub get_stale_boards : Env → ℕ → Db → ℕ × List Status
unfolding get_all_status
get_stale_boards env now db =
    let stale = keep is_stale (get_all_status env now db) in (length stale, stale)

-- A document of the collection `board_heartbeats`; what a document lacks is `none`.
pub record HeartbeatDocument : Type 0 where
  pub id : String
  pub last_heartbeat_at : Option ℕ
  pub screen_state : Option String
  pub app_version : Option String
  pub uptime_seconds : Option ℕ

-- One dict of `get_all_status`.
pub record DocumentStatus : Type 0 where
  pub board_id : String
  pub last_heartbeat_at : Option String
  pub screen_state : String
  pub app_version : String
  pub uptime_seconds : ℕ
  pub stale : Bool

-- `data.get(key, default)`
abbrev value_or {ℓ} : {A : Type ℓ} → A → Option A → A
value_or default none = default
value_or default (some a) = a

abbrev pub document_status : Env → ℕ → HeartbeatDocument → DocumentStatus
document_status env now doc = record {
  board_id = doc.id;
  last_heartbeat_at = Option.map env.isoformat doc.last_heartbeat_at;
  screen_state = value_or "unknown" doc.screen_state;
  app_version = value_or "unknown" doc.app_version;
  uptime_seconds = value_or 0 doc.uptime_seconds;
  stale = elim (doc.last_heartbeat_at) [ none ↦ true | some t ↦ ltb (t + minutes 5) now ];
}

-- `HeartbeatService.get_all_status`, deprecated: the documents of Firestore, or nothing without a
-- client.
unfoldable pub get_all_status_documents :
    Env → (db : Bool) → ℕ → List HeartbeatDocument → List DocumentStatus
get_all_status_documents env false now docs = []
get_all_status_documents env true now docs = map (document_status env now) docs
