-- ===== src/Schema/Initial.antt =====
-- backend/python/alembic/versions/001_initial_schema.py: the operations that `upgrade` and
-- `downgrade` call, in their order. `now()` is the text of `sa.func.now()`.
use intelli_attend_smart_boa.Base.{String, List, [], ◌∷◌, ◌++◌}
use intelli_attend_smart_boa.Schema.{
  Kind, Column, column, primary, required, unique, indexed, default, references, Op,
}
use intelli_attend_smart_boa.Schema.Kind.{string, integer, long_text, date_time, enum}
use intelli_attend_smart_boa.Schema.Op.{
  create_type, drop_type, create_table, drop_table, create_index, create_unique_constraint,
}

abbrev stamp : String → Column
stamp name = default "now()" (column name date_time)

-- A column that refers to the `id` of another table.
abbrev refers_to : String → Kind → String → Column
refers_to name kind table = references table "id" (column name kind)

unfoldable pub types : List Op
types =
    create_type "user_role" ("board" ∷ "student" ∷ "faculty" ∷ "admin" ∷ [])
    ∷ create_type "auth_status" ("pending" ∷ "active" ∷ "suspended" ∷ [])
    ∷ create_type "slot_type" ("regular" ∷ "lab" ∷ "break" ∷ [])
    ∷ create_type "session_status" ("pre_allocated" ∷ "active" ∷ "completed" ∷ "ended" ∷ [])
    ∷ create_type "enrollment_status" ("active" ∷ "inactive" ∷ [])
    ∷ create_type "attendee_status" ("PRESENT" ∷ "ABSENT" ∷ "LATE" ∷ [])
    ∷ []

unfoldable pub institutions : List Column
institutions =
    primary (column "id" (string 32))
    ∷ required (column "name" (string 255))
    ∷ default "Asia/Kolkata" (column "timezone" (string 64))
    ∷ stamp "created_at"
    ∷ []

unfoldable pub rooms : List Column
rooms =
    primary (column "id" (string 32))
    ∷ indexed (required (column "room_number" (string 32)))
    ∷ column "building" (string 128)
    ∷ column "floor" (string 32)
    ∷ column "capacity" integer
    ∷ required (refers_to "institution_id" (string 32) "institutions")
    ∷ stamp "created_at"
    ∷ []

unfoldable pub users : List Column
users =
    primary (column "id" (string 64))
    ∷ indexed (unique (required (column "email" (string 255))))
    ∷ required (column "name" (string 255))
    ∷ required (column "role" (enum "user_role" ("board" ∷ "student" ∷ "faculty" ∷ "admin" ∷ [])))
    ∷ default "pending"
        (column "auth_status" (enum "auth_status" ("pending" ∷ "active" ∷ "suspended" ∷ [])))
    ∷ unique (column "firebase_uid" (string 128))
    ∷ refers_to "room_id" (string 32) "rooms"
    ∷ refers_to "institution_id" (string 32) "institutions"
    ∷ column "roll_number" (string 32)
    ∷ stamp "created_at"
    ∷ []

unfoldable pub courses : List Column
courses =
    primary (column "id" (string 32))
    ∷ indexed (unique (required (column "code" (string 32))))
    ∷ required (column "name" (string 255))
    ∷ required (refers_to "institution_id" (string 32) "institutions")
    ∷ stamp "created_at"
    ∷ []

unfoldable pub sections : List Column
sections =
    primary (column "id" (string 64))
    ∷ required (column "name" (string 255))
    ∷ required (refers_to "course_id" (string 32) "courses")
    ∷ required (refers_to "institution_id" (string 32) "institutions")
    ∷ stamp "created_at"
    ∷ []

unfoldable pub enrollments : List Column
enrollments =
    primary (column "id" (string 32))
    ∷ required (refers_to "student_id" (string 64) "users")
    ∷ required (refers_to "section_id" (string 64) "sections")
    ∷ required (refers_to "course_id" (string 32) "courses")
    ∷ default "active" (column "status" (enum "enrollment_status" ("active" ∷ "inactive" ∷ [])))
    ∷ stamp "enrolled_at"
    ∷ []

unfoldable pub timetable_slots : List Column
timetable_slots =
    primary (column "id" (string 32))
    ∷ required (refers_to "course_id" (string 32) "courses")
    ∷ required (refers_to "section_id" (string 64) "sections")
    ∷ required (refers_to "faculty_id" (string 64) "users")
    ∷ required (refers_to "room_id" (string 32) "rooms")
    ∷ required (column "day_of_week" integer)
    ∷ required (column "start_time" (string 8))
    ∷ required (column "end_time" (string 8))
    ∷ default "regular" (column "slot_type" (enum "slot_type" ("regular" ∷ "lab" ∷ "break" ∷ [])))
    ∷ default "Lecture" (column "class_type" (string 32))
    ∷ stamp "created_at"
    ∷ stamp "updated_at"
    ∷ []

unfoldable pub board_heartbeats : List Column
board_heartbeats =
    primary (column "id" (string 32))
    ∷ indexed (required (refers_to "board_id" (string 64) "users"))
    ∷ default "unknown" (column "screen_state" (string 32))
    ∷ default "0" (column "uptime_seconds" integer)
    ∷ default "unknown" (column "app_version" (string 32))
    ∷ stamp "last_heartbeat_at"
    ∷ []

unfoldable pub active_sessions : List Column
active_sessions =
    primary (column "id" (string 32))
    ∷ indexed (unique (required (column "session_id" (string 64))))
    ∷ column "slot_id" (string 32)
    ∷ column "room_id" (string 32)
    ∷ default "pre_allocated" (
        column "status"
          (enum "session_status" ("pre_allocated" ∷ "active" ∷ "completed" ∷ "ended" ∷ [])))
    ∷ column "session_secret_half1" (string 64)
    ∷ default "" (column "course_name" (string 255))
    ∷ default "" (column "faculty_name" (string 255))
    ∷ default "" (column "section_id" (string 64))
    ∷ default "0" (column "roster_count" integer)
    ∷ stamp "created_at"
    ∷ column "activated_at" date_time
    ∷ column "ended_at" date_time
    ∷ []

unfoldable pub session_attendees : List Column
session_attendees =
    primary (column "id" (string 32))
    ∷ required (references "active_sessions" "session_id" (column "session_id" (string 64)))
    ∷ required (refers_to "student_id" (string 64) "users")
    ∷ column "student_name" (string 255)
    ∷ default "PRESENT"
        (column "status" (enum "attendee_status" ("PRESENT" ∷ "ABSENT" ∷ "LATE" ∷ [])))
    ∷ stamp "recorded_at"
    ∷ []

unfoldable pub attendance_vault : List Column
attendance_vault =
    primary (column "id" (string 32))
    ∷ required (column "session_id" (string 64))
    ∷ required (column "student_id" (string 64))
    ∷ required (column "qr_payload" long_text)
    ∷ required (column "timestamp" integer)
    ∷ stamp "synced_at"
    ∷ default "unknown" (column "board_id" (string 64))
    ∷ []

-- `upgrade` after the statements `CREATE TYPE`
unfoldable pub tables : List Op
unfolding institutions rooms users courses sections enrollments timetable_slots board_heartbeats
    active_sessions session_attendees attendance_vault
tables =
    create_table "institutions" institutions
    ∷ create_table "rooms" rooms
    ∷ create_table "users" users
    ∷ create_index "ix_users_role" "users" ("role" ∷ [])
    ∷ create_index "ix_users_institution" "users" ("institution_id" ∷ [])
    ∷ create_table "courses" courses
    ∷ create_table "sections" sections
    ∷ create_index "ix_sections_course" "sections" ("course_id" ∷ [])
    ∷ create_table "enrollments" enrollments
    ∷ create_unique_constraint "uq_student_section_course" "enrollments"
        ("student_id" ∷ "section_id" ∷ "course_id" ∷ [])
    ∷ create_index "ix_enrollments_section_course" "enrollments" ("section_id" ∷ "course_id" ∷ [])
    ∷ create_index "ix_enrollments_student" "enrollments" ("student_id" ∷ [])
    ∷ create_index "ix_enrollments_status" "enrollments" ("status" ∷ [])
    ∷ create_table "timetable_slots" timetable_slots
    ∷ create_index "ix_timetable_room_day" "timetable_slots" ("room_id" ∷ "day_of_week" ∷ [])
    ∷ create_index "ix_timetable_faculty" "timetable_slots" ("faculty_id" ∷ [])
    ∷ create_index "ix_timetable_section" "timetable_slots" ("section_id" ∷ [])
    ∷ create_table "board_heartbeats" board_heartbeats
    ∷ create_table "active_sessions" active_sessions
    ∷ create_table "session_attendees" session_attendees
    ∷ create_index "ix_attendees_session" "session_attendees" ("session_id" ∷ [])
    ∷ create_index "ix_attendees_student" "session_attendees" ("student_id" ∷ [])
    ∷ create_table "attendance_vault" attendance_vault
    ∷ []

unfoldable pub upgrade : List Op
unfolding types tables
upgrade = types ++ tables

unfoldable pub downgrade : List Op
downgrade =
    drop_table "attendance_vault"
    ∷ drop_table "session_attendees"
    ∷ drop_table "active_sessions"
    ∷ drop_table "board_heartbeats"
    ∷ drop_table "timetable_slots"
    ∷ drop_table "enrollments"
    ∷ drop_table "sections"
    ∷ drop_table "courses"
    ∷ drop_table "users"
    ∷ drop_table "rooms"
    ∷ drop_table "institutions"
    ∷ drop_type "attendee_status"
    ∷ drop_type "enrollment_status"
    ∷ drop_type "session_status"
    ∷ drop_type "slot_type"
    ∷ drop_type "auth_status"
    ∷ drop_type "user_role"
    ∷ []
