-- ===== src/Models.antt =====
-- The tables of backend/python/models/sql_models.py as records. Times are microseconds since the
-- epoch, `Optional` columns are options, and a surrogate key that no handler reads is left out.
use intelli_attend_smart_boa.Base.{ℕ, String, Bool, Option, List, ◌*◌}
use intelli_attend_smart_boa.Json.{PyInt}

pub data UserRole : Type 0 where
  board student faculty admin : UserRole

pub data AuthStatus : Type 0 where
  pending active suspended : AuthStatus

pub data SlotType : Type 0 where
  regular lab break : SlotType

pub data SessionStatus : Type 0 where
  pre_allocated active completed ended : SessionStatus

pub data EnrollmentStatus : Type 0 where
  active inactive : EnrollmentStatus

pub data AttendeeStatus : Type 0 where
  present absent late : AttendeeStatus

pub record Institution : Type 0 where
  pub id : String
  pub name : String
  pub timezone : String

pub record Room : Type 0 where
  pub id : String
  pub room_number : String
  pub building : Option String
  pub floor : Option String
  pub capacity : Option ℕ
  pub institution_id : String

pub record User : Type 0 where
  pub id : String
  pub email : String
  pub name : String
  pub role : UserRole
  pub auth_status : AuthStatus
  pub firebase_uid : Option String
  pub smart_board_id : Option String
  pub room_id : Option String
  pub institution_id : Option String
  pub roll_number : Option String

pub record Course : Type 0 where
  pub id : String
  pub code : String
  pub name : String
  pub institution_id : String

pub record Section : Type 0 where
  pub id : String
  pub name : String
  pub course_id : String
  pub institution_id : String

pub record Enrollment : Type 0 where
  pub student_id : String
  pub section_id : String
  pub course_id : String
  pub status : EnrollmentStatus

pub record TimetableSlot : Type 0 where
  pub id : String
  pub course_id : String
  pub section_id : String
  pub faculty_id : String
  pub room_id : String
  pub day_of_week : ℕ
  pub start_time : String
  pub end_time : String
  pub slot_type : SlotType
  pub class_type : String

pub record BoardHeartbeat : Type 0 where
  pub board_id : String
  pub screen_state : Option String
  pub uptime_seconds : ℕ
  pub app_version : Option String
  pub last_heartbeat_at : ℕ

pub record ActiveSession : Type 0 where
  pub session_id : String
  pub slot_id : Option String
  pub room_id : Option String
  pub status : SessionStatus
  pub session_secret_half1 : Option String
  pub course_name : String
  pub faculty_name : String
  pub section_id : String
  pub roster_count : ℕ
  pub created_at : ℕ
  pub activated_at : Option ℕ
  pub ended_at : Option ℕ

pub record SessionAttendee : Type 0 where
  pub session_id : String
  pub student_id : String
  pub student_name : Option String
  pub status : AttendeeStatus
  pub recorded_at : ℕ

pub record AttendanceVault : Type 0 where
  pub session_id : String
  pub student_id : String
  pub qr_payload : String
  pub timestamp : ℕ
  pub synced_at : ℕ
  pub board_id : String

pub record PendingRegistration : Type 0 where
  pub id : String
  pub smart_board_id : String
  pub firebase_uid : Option String
  pub email : Option String
  pub otp_hash : String
  pub otp_expires_at : ℕ
  pub attempts : ℕ
  pub locked_until : Option ℕ

-- `download_progress` is a percentage: the source's 0.0 and 1.0 are 0 and 100.
pub record BoardVersion : Type 0 where
  pub board_id : String
  pub current_version : Option String
  pub target_version : Option String
  pub update_status : String
  pub download_progress : ℕ
  pub last_update_at : Option ℕ
  pub last_heartbeat_at : Option ℕ
  pub last_error : Option String
  pub rollback_count : ℕ

pub record UpdateEvent : Type 0 where
  pub board_id : String
  pub event_type : String
  pub current_version : Option String
  pub previous_version : Option String
  pub target_version : Option String
  pub status : Option String
  pub stable_startups : Option ℕ
  pub rollback_count : Option ℕ
  pub error_message : Option String
  pub created_at : ℕ

pub record ReleaseManifest : Type 0 where
  pub version : String
  pub download_url : String
  pub sha256 : Option String
  pub force : Bool
  pub rollout_percentage : PyInt
  pub release_notes : Option String
  pub is_active : Bool
  pub uploaded_by : Option String
  pub created_at : ℕ

-- The tables that the handlers read and write.
pub record Db : Type 0 where
  pub users : List User
  pub pending : List PendingRegistration
  pub sessions : List ActiveSession
  pub attendees : List SessionAttendee
  pub vault : List AttendanceVault
  pub heartbeats : List BoardHeartbeat
  pub versions : List BoardVersion
  pub events : List UpdateEvent
  pub manifests : List ReleaseManifest
  pub institutions : List Institution
  pub rooms : List Room
  pub courses : List Course
  pub sections : List Section
  pub enrollments : List Enrollment
  pub slots : List TimetableSlot

-- `datetime` arithmetic.
abbrev pub seconds : ℕ → ℕ
seconds n = n * 1_000_000

abbrev pub minutes : ℕ → ℕ
minutes n = seconds (n * 60)
