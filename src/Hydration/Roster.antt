-- ===== src/Hydration/Roster.antt =====
-- The students of the classes that a room's timetable names: `_build_rosters`.
pub mod Laws
use intelli_attend_smart_boa.Base.{
  String, Bool, true, false, Option, none, some, List, [], ◌∷◌, ◌++◌, ◌&&◌, ◌^^◌, same, some?, keep,
  if◌then◌else◌,
}
use intelli_attend_smart_boa.Dict.{Dict, insert}
use intelli_attend_smart_boa.Json.{Json, text, obj, end, optional, ◌↪◌⨾◌}
use intelli_attend_smart_boa.Models.{
  Db, User, Course, Section, Enrollment, EnrollmentStatus, TimetableSlot,
}
use intelli_attend_smart_boa.Hydration.Schedule.{field_or, course_of, section_of, user_of}

-- The ids of a section and of a course.
abbrev pub Pair : Type 0
Pair = String × String

abbrev pub same_pair : Pair → Pair → Bool
same_pair (a, b) (c, d) = same a c && same b d

-- `pairs.add(pair)`
abbrev pub add_pair : Pair → List Pair → List Pair
add_pair p pairs = if some? (same_pair p) pairs then pairs else pairs ++ p ∷ []

-- The loop that collects `section_course_pairs`.
unfoldable pub collect_pairs : Db → List TimetableSlot → List Pair → List Pair
collect_pairs db [] pairs = pairs
collect_pairs db (slot ∷ slots) pairs = elim (section_of db slot.section_id) [
  | none ↦ collect_pairs db slots pairs
  | some section ↦ elim (course_of db slot.course_id) [
    | none ↦ collect_pairs db slots pairs
    | some course ↦ collect_pairs db slots (add_pair (section.id, course.id) pairs)
  ]
]

abbrev pub is_enrolled : EnrollmentStatus → Bool
is_enrolled EnrollmentStatus.active = true
is_enrolled EnrollmentStatus.inactive = false

-- The query of the enrollments of a section in a course.
abbrev pub enrolls : Pair → Enrollment → Bool
enrolls (section_id, course_id) e =
    same e.section_id section_id && same e.course_id course_id && is_enrolled e.status

abbrev pub student_to_dict : User → Json
student_to_dict student = obj (
    "student_id"
    ↪ text student.id ⨾ "name"
    ↪ text student.name ⨾ "roll_number"
    ↪ optional student.roll_number ⨾ end)

-- The loop that collects `students`.
unfoldable pub students_of : Db → List Enrollment → List Json
students_of db [] = []
students_of db (e ∷ rest) = elim (user_of db e.student_id) [
  | none ↦ students_of db rest
  | some student ↦ student_to_dict student ∷ students_of db rest
]

abbrev pub students_in : Db → Pair → List Json
students_in db pair = students_of db (keep (enrolls pair) db.enrollments)

-- `roster_key`
unfoldable pub roster_key : Db → Pair → String
roster_key db (section_id, course_id) =
    field_or section_id (λ (s : Section). s.id) (section_of db section_id)
    ^^ "_"
    ^^ field_or course_id (λ (c : Course). c.code) (course_of db course_id)

-- `rosters[roster_key] = students`, if there are any.
abbrev pub add_roster : Db → Pair → Dict (List Json) → Dict (List Json)
add_roster db pair rosters = elim (students_in db pair) [
  | [] ↦ rosters
  | s ∷ rest ↦ insert (roster_key db pair) (s ∷ rest) rosters
]

-- The loop over the pairs.
unfoldable pub fill_rosters : Db → List Pair → Dict (List Json) → Dict (List Json)
unfolding roster_key students_of
fill_rosters db [] rosters = rosters
fill_rosters db (pair ∷ pairs) rosters = fill_rosters db pairs (add_roster db pair rosters)

-- The slots of the room, in no order, and their pairs.
unfoldable pub room_pairs : (room : String) → Db → List Pair
unfolding collect_pairs
room_pairs room db =
    collect_pairs db (keep (λ (s : TimetableSlot). same s.room_id room) db.slots) []

-- `_build_rosters`, where `iterate` is the order in which Python walks a set.
unfoldable pub build_rosters :
    (iterate : List Pair → List Pair) → (room : String) → Db → Dict (List Json)
unfolding fill_rosters room_pairs
build_rosters iterate room db = fill_rosters db (iterate (room_pairs room db)) []
