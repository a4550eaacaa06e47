-- ===== src/Session/Lifecycle/States.antt =====
-- The tables of sessions that the routes keep: unique ids, and at most one running session of a room.
use intelli_attend_smart_boa.Base.{ℕ, ◌≤◌, String, ◌≡◌, Bool, none, some, List, count_where}
use intelli_attend_smart_boa.Models.{ActiveSession, SessionStatus}
use intelli_attend_smart_boa.Security.{BoardData}
use intelli_attend_smart_boa.Session.{has_id}
use intelli_attend_smart_boa.Session.Monitor.{is_active}

-- No two rows of one session id.
abbrev pub HasUniqueIds : List ActiveSession → Type 0
HasUniqueIds sessions = (k : String) → count_where (has_id k) sessions ≤ 1

abbrev pub runs : ActiveSession → Bool
runs s = is_active s.status

-- No session is active.
abbrev pub IsIdle : List ActiveSession → Type 0
IsIdle sessions = count_where runs sessions ≡ 0

-- The row of a preflight.
abbrev pub prepared : ℕ → (half1 slot_id id : String) → BoardData → ActiveSession
prepared now half1 slot_id id board = record {
  session_id = id;
  slot_id = some slot_id;
  room_id = board.room_id;
  status = SessionStatus.pre_allocated;
  session_secret_half1 = some half1;
  course_name = "";
  faculty_name = "";
  section_id = "";
  roster_count = 0;
  created_at = now;
  activated_at = none;
  ended_at = none;
}
