-- ===== src/Hydration/Tests.antt =====
-- A room with one class on Monday, one student in it, and one who has left.
use intelli_attend_smart_boa.Base.{
  ℕ, ◌≡◌, refl, String, Bool, false, some, [], ◌∷◌, List, some?, map, keep, count_where, same,
  if◌then◌else◌,
}
use intelli_attend_smart_boa.Base.Sort.{number_order, text_order, pair_order, IsSorted, sort_by}
use intelli_attend_smart_boa.Dict.{lookup}
use intelli_attend_smart_boa.Json.{Fields, text, obj, end, get}
use intelli_attend_smart_boa.Http.{Result, ok, err, crash}
use intelli_attend_smart_boa.Models.{
  Db, User, UserRole, AuthStatus, Enrollment, EnrollmentStatus, TimetableSlot, SlotType,
}
use intelli_attend_smart_boa.Env.{Env}
use intelli_attend_smart_boa.Security.{BoardData, board_data_of}
use intelli_attend_smart_boa.Session.{World}
use intelli_attend_smart_boa.Session.Routes.{terminate_session}
use intelli_attend_smart_boa.Fixtures.{
  test_env, empty_db, board_user, session_row, no_redis, room_of_two, first_broken,
}
use intelli_attend_smart_boa.Hydration.Schedule.{
  slot_to_dict, day_and_start, schedule_rows, fill_schedule, build_schedule, day_name,
}
use intelli_attend_smart_boa.Hydration.Schedule.Laws.{
  week, off_calendar, on_day, build_schedule_lem,
}
use intelli_attend_smart_boa.Hydration.Roster.{Pair, build_rosters}
use intelli_attend_smart_boa.Hydration.Roster.Laws.{IsRosterFor, build_rosters_lem}
use intelli_attend_smart_boa.Hydration.Manifest.{compute_manifest_hash}
use intelli_attend_smart_boa.Hydration.Payload.{build_payload, board_hydrate}
use intelli_attend_smart_boa.Hydration.Payload.Laws.{build_payload-hash}
use intelli_attend_smart_boa.Hydration.Payload.Cached.{
  hydrate_keeps, AllAnswered, hydrate-terminate_session,
}

abbrev student : User
student = record (board_user AuthStatus.active) {
  id = "s1";
  email = "s1@school";
  name = "Eve";
  role = UserRole.student;
  roll_number = some "7";
}

abbrev slot : TimetableSlot
slot = record {
  id = "t1";
  course_id = "c1";
  section_id = "A";
  faculty_id = "f1";
  room_id = "R1";
  day_of_week = 1;
  start_time = "09:00:00";
  end_time = "10:00:00";
  slot_type = SlotType.lab;
  class_type = "";
}

abbrev enrollment : Enrollment
enrollment = record {
  student_id = "s1";
  section_id = "A";
  course_id = "c1";
  status = EnrollmentStatus.active;
}

abbrev school_db : Db
school_db = record empty_db {
  users = board_user AuthStatus.active ∷ student ∷ [];
  sessions = session_row ∷ [];
  courses = record { id = "c1"; code = "M1"; name = "Maths"; institution_id = "i1" } ∷ [];
  sections = record { id = "A"; name = "A"; course_id = "c1"; institution_id = "i1" } ∷ [];
  enrollments = record enrollment { status = EnrollmentStatus.inactive } ∷ enrollment ∷ [];
  slots = slot ∷ [];
}

-- Python walks a set of one element in one way.
abbrev in_order : List Pair → List Pair
in_order pairs = pairs

build_schedule_lem_example :
    let rows = schedule_rows "R1" school_db in
    (build_schedule "R1" school_db ≡ (
      if some? off_calendar rows
      then err crash
      else ok (
        week (λ day. map (slot_to_dict school_db) (keep (on_day day) rows)),
        map (slot_to_dict school_db) rows,
      )))
    × IsSorted (pair_order number_order text_order) day_and_start rows
    × ((p : TimetableSlot → Bool)
        → count_where p rows
          ≡ count_where p (keep (λ (s : TimetableSlot). same s.room_id "R1") school_db.slots))
build_schedule_lem_example = build_schedule_lem "R1" school_db

-- A slot on an eighth day.
eighth_day :
    build_schedule "R1" (record school_db { slots = record slot { day_of_week = 8 } ∷ [] })
    ≡ err crash
unfolding build_schedule fill_schedule schedule_rows day_name same sort_by
eighth_day = refl

build_rosters_lem_example :
    IsRosterFor school_db
      (keep (λ (s : TimetableSlot). same s.room_id "R1") school_db.slots)
      "A_M1"
      (lookup "A_M1" (build_rosters in_order "R1" school_db))
build_rosters_lem_example = build_rosters_lem in_order (λ pairs p. refl) "R1" school_db "A_M1"

abbrev dated : Fields
dated = Fields.field "timezone" (text "UTC") end

abbrev board : BoardData
board = board_data_of (board_user AuthStatus.active)

abbrev fields_or_empty : Result Fields → Fields
fields_or_empty (ok fs) = fs
fields_or_empty (err e) = end

abbrev payload : Fields
payload = fields_or_empty (build_payload test_env in_order 5 board "R1" school_db)

build_payload-hash_example :
    (get "manifest_hash" payload ≡ some (text (compute_manifest_hash test_env (obj payload))))
    × ((later : Fields) × (build_payload test_env in_order 9 board "R1" school_db ≡ ok later)
        × (compute_manifest_hash test_env (obj later)
            ≡ compute_manifest_hash test_env (obj payload)))
unfolding build_payload build_schedule fill_schedule schedule_rows day_name same sort_by
build_payload-hash_example =
    build_payload-hash test_env in_order 5 9 board "R1" school_db payload refl

-- An environment that prints and reads that payload.
abbrev reading_env : Env
reading_env = record test_env { dumps = λ j. "payload"; loads = λ s. some (obj payload) }

abbrev world : World String
world = record {
  db = school_db;
  cache = record { client = false; local = []; server = "" };
  rooms = room_of_two;
}

abbrev asked : List (ℕ × BoardData × Db)
asked = (900, board, empty_db) ∷ (9_000_000, board, world.db) ∷ []

hydrate_keeps_example :
    let (r, w') = board_hydrate no_redis reading_env in_order 5 board world in
    (r ≡ ok (obj payload)) × AllAnswered no_redis reading_env in_order payload asked w'
unfolding build_payload build_schedule fill_schedule schedule_rows day_name same sort_by
hydrate_keeps_example =
    hydrate_keeps no_redis reading_env in_order 5 board asked "R1" world payload refl
      (refl, (refl, tt)) refl (refl, refl) refl refl refl refl

hydrate-terminate_session_example :
    let w' = (terminate_session no_redis test_env first_broken 7 "SESS_1" world).1 in
    (board_hydrate no_redis test_env in_order 9 board w').0
    ≡ elim (build_payload test_env in_order 9 board "R1" w'.db) [
      | ok payload ↦ ok (obj payload)
      | err e ↦ err e
    ]
unfolding same
hydrate-terminate_session_example =
    hydrate-terminate_session no_redis test_env in_order first_broken 7 9 board "R1" "SESS_1" world
      session_row refl refl (refl, refl) refl refl refl
