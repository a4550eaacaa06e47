-- ===== src/Fixtures.antt =====
-- Concrete values for the tests: an environment whose tokens and hashes are the texts themselves,
-- and small tables.
use intelli_attend_smart_boa.Base.{
  ℕ, String, Bool, true, false, none, some, [], ◌∷◌, same, if◌then◌else◌, not, ◌==◌, ◌≡◌, ◌≢◌,
  same_iff, arith,
}
use intelli_attend_smart_boa.Json.{natural, Json, text, obj, end, ◌↪◌⨾◌}
use intelli_attend_smart_boa.Models.{
  Db, User, UserRole, AuthStatus, PendingRegistration, ActiveSession, SessionStatus, BoardVersion,
  UpdateEvent, ReleaseManifest,
}
use intelli_attend_smart_boa.Env.{Env, claims}
use intelli_attend_smart_boa.Cache.{Redis}
use intelli_attend_smart_boa.Sockets.Boards.{Boards}
use intelli_attend_smart_boa.Sockets.Rooms.{Rooms}

-- A token of the backend is its subject; decoding it also makes the text its role.
abbrev pub test_env : Env
test_env = record {
  jwt_secret = "secret";
  jwt_encode = λ c secret. elim (c.sub) [ none ↦ "" | some s ↦ s ];
  jwt_decode = λ token secret now. claims (record {
    sub = some token;
    purpose = some "registration_verification";
    role = some token;
    iat = 0;
    exp = 0;
  });
  verify_id_token = λ token. some (record { uid = some token; email = some token });
  create_custom_token = λ uid. some uid;
  sha256 = λ s. s;
  hmac_sha256 = λ key message. message;
  lower = λ s. s;
  parse_int = λ s. if same s "100" then some (natural 100) else none;
  dumps = λ j. "{}";
  dumps_sorted = λ j. "{}";
  loads = λ s. some (obj ("session_id" ↪ text "SESS_1" ⨾ end));
  date = λ t. "2026-01-05";
  isoformat = λ t. "2026-01-05T08:00:00";
}

abbrev pub empty_db : Db
empty_db = record {
  users = [];
  pending = [];
  sessions = [];
  attendees = [];
  vault = [];
  heartbeats = [];
  versions = [];
  events = [];
  manifests = [];
  institutions = [];
  rooms = [];
  courses = [];
  sections = [];
  enrollments = [];
  slots = [];
}

abbrev pub board_user : AuthStatus → User
board_user status = record {
  id = "u1";
  email = "board@school";
  name = "SmartBoard B1";
  role = UserRole.board;
  auth_status = status;
  firebase_uid = some "f1";
  smart_board_id = some "B1";
  room_id = some "R1";
  institution_id = none;
  roll_number = none;
}

abbrev pub pending_row : PendingRegistration
pending_row = record {
  id = "p1";
  smart_board_id = "B1";
  firebase_uid = some "f1";
  email = some "board@school";
  otp_hash = "123456";
  otp_expires_at = 1000;
  attempts = 9;
  locked_until = none;
}

abbrev pub pending_db : Db
pending_db = record empty_db { pending = pending_row ∷ [] }

abbrev pub session_row : ActiveSession
session_row = record {
  session_id = "SESS_1";
  slot_id = none;
  room_id = some "R1";
  status = SessionStatus.active;
  session_secret_half1 = some "half";
  course_name = "Maths";
  faculty_name = "Ada";
  section_id = "A";
  roster_count = 30;
  created_at = 0;
  activated_at = some 0;
  ended_at = none;
}

abbrev pub version_row : BoardVersion
version_row = record {
  board_id = "B1";
  current_version = some "1.0.0";
  target_version = some "1.1.0";
  update_status = "downloading";
  download_progress = 50;
  last_update_at = none;
  last_heartbeat_at = none;
  last_error = none;
  rollback_count = 0;
}

abbrev pub report_event : UpdateEvent
report_event = record {
  board_id = "B1";
  event_type = "status_report";
  current_version = some "1.0.0";
  previous_version = some "0.9.0";
  target_version = none;
  status = some "completed";
  stable_startups = some 3;
  rollback_count = some 0;
  error_message = none;
  created_at = 10;
}

abbrev pub old_release : ReleaseManifest
old_release = record {
  version = "1.0.0";
  download_url = "";
  sha256 = none;
  force = false;
  rollout_percentage = natural 50;
  release_notes = none;
  is_active = true;
  uploaded_by = some "ci";
  created_at = 5;
}

abbrev pub fleet_db : Db
fleet_db = record empty_db {
  versions = version_row ∷ [];
  events = report_event ∷ [];
  manifests = old_release ∷ [];
}

abbrev pub no_boards : Boards
no_boards = record { connections = []; pending = []; delivered = [] }

abbrev pub room_of_two : Rooms
room_of_two = record { connections = ("SESS_1", 1 ∷ 2 ∷ []) ∷ []; delivered = [] }

-- A network on which socket 1 is broken.
abbrev pub first_broken : ℕ → Json → Bool
first_broken ws message = not (ws == 1)

-- Texts that the test tells apart differ.
pub apart : (a b : String) → same a b ≡ false → a ≢ b
apart a b h e = ground (arith, same_iff a b)

-- A backend without Redis.
abbrev pub no_redis : Redis String
no_redis = record {
  available = false;
  ping = λ s. true;
  get = λ key s. none;
  setex = λ key ttl value s. none;
  delete = λ key s. none;
}
