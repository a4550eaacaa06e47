-- ===== src/Session/Monitor.antt =====
-- One round of `stale_board_monitor` in backend/python/main.py. Boards are taken in the order in
-- which their first heartbeat stands in the table, where the query sorts them by id.
pub mod Laws
use intelli_attend_smart_boa.Base.{
  ℕ, ◌+◌, String, Bool, true, false, Option, none, some, List, [], ◌∷◌, ◌++◌, ◌&&◌, ltb, same, find,
  modify_first, if◌then◌else◌,
}
use intelli_attend_smart_boa.Dict.{Dict, lookup, insert}
use intelli_attend_smart_boa.Models.{Db, ActiveSession, SessionStatus, BoardHeartbeat, minutes}
use intelli_attend_smart_boa.Session.Routes.{end_session}

-- The latest heartbeat of each board: `distinct(board_id)` over the rows with the newest first.
abbrev pub newer_of : Option ℕ → ℕ → ℕ
newer_of none t = t
newer_of (some best) t = if ltb best t then t else best

unfoldable pub latest_from : Dict ℕ → List BoardHeartbeat → Dict ℕ
latest_from seen [] = seen
latest_from seen (hb ∷ rest) =
    latest_from (insert hb.board_id (newer_of (lookup hb.board_id seen) hb.last_heartbeat_at) seen)
      rest

-- `last_hb < now - STALE_THRESHOLD`
abbrev pub is_stale : ℕ → ℕ → Bool
is_stale now t = ltb (t + minutes 30) now

-- `stale_board_ids`
unfoldable pub stale_boards : ℕ → Dict ℕ → List String
stale_boards now [] = []
stale_boards now ((board, t) ∷ rest) =
    if is_stale now t then board ∷ stale_boards now rest else stale_boards now rest

abbrev pub is_active : SessionStatus → Bool
is_active SessionStatus.active = true
is_active _ = false

-- `ActiveSession.room_id == board_id` and the status, in the query for the session to end
abbrev pub runs_in : String → ActiveSession → Bool
runs_in board s =
    elim (s.room_id) [ none ↦ false | some room ↦ same room board ] && is_active s.status

-- The loop over the stale boards: one active session of each is ended.
unfoldable pub end_stale : ℕ → List String → List ActiveSession → List ActiveSession
end_stale now [] sessions = sessions
end_stale now (board ∷ rest) sessions =
    end_stale now rest (modify_first (runs_in board) (end_session now) sessions)

-- A round: the sessions after it, and the boards that `AlertService` is told of, in order.
unfoldable pub monitor_round : ℕ → Db → List ActiveSession × List String
unfolding latest_from stale_boards end_stale
monitor_round now db =
    let stale = stale_boards now (latest_from [] db.heartbeats) in
    (end_stale now stale db.sessions, stale)
