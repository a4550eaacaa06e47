-- ===== src/Hydration/Schedule.antt =====
-- The timetable of a room: `_build_schedule` and `_slot_to_dict`.
pub mod Laws
use intelli_attend_smart_boa.Base.{
  ℕ, String, Option, none, some, List, [], ◌∷◌, ◌++◌, ◌==◌, same, truthy, find, keep, if◌then◌else◌,
}
use intelli_attend_smart_boa.Base.Sort.{number_order, text_order, pair_order, sort_by}
use intelli_attend_smart_boa.Dict.{Dict, lookup, insert}
use intelli_attend_smart_boa.Json.{Json, Items, num, text, arr, obj, end, items, ◌↪◌⨾◌}
use intelli_attend_smart_boa.Http.{Result, ok, err, crash}
use intelli_attend_smart_boa.Models.{Db, User, Room, Course, Section, TimetableSlot, SlotType}

-- `DAY_NAMES.get(day, "unknown")`
unfoldable pub day_name : ℕ → String
day_name day =
    if day == 1
    then "monday"
    else if day == 2
    then "tuesday"
    else if day == 3
    then "wednesday"
    else if day == 4
    then "thursday"
    else if day == 5
    then "friday"
    else if day == 6
    then "saturday"
    else if day == 7
    then "sunday"
    else "unknown"

-- `{name: [] for name in DAY_NAMES.values()}`
abbrev pub empty_days : Dict (List Json)
empty_days =
    ("monday", [])
    ∷ ("tuesday", [])
    ∷ ("wednesday", [])
    ∷ ("thursday", [])
    ∷ ("friday", [])
    ∷ ("saturday", [])
    ∷ ("sunday", [])
    ∷ []

-- `row.field if row else default`, for the row that a foreign key names.
abbrev pub field_or : {A : Type 0} → String → (A → String) → Option A → String
field_or default column none = default
field_or default column (some row) = column row

abbrev pub slot_type_value : SlotType → String
slot_type_value SlotType.regular = "regular"
slot_type_value SlotType.lab = "lab"
slot_type_value SlotType.break = "break"

-- `slot.course`, `slot.section`, and the other joined rows.
abbrev pub course_of : Db → String → Option Course
course_of db id = find (λ (c : Course). same c.id id) db.courses

abbrev pub section_of : Db → String → Option Section
section_of db id = find (λ (s : Section). same s.id id) db.sections

abbrev pub room_of : Db → String → Option Room
room_of db id = find (λ (r : Room). same r.id id) db.rooms

abbrev pub user_of : Db → String → Option User
user_of db id = find (λ (u : User). same u.id id) db.users

-- `_slot_to_dict`
unfoldable pub slot_to_dict : Db → TimetableSlot → Json
slot_to_dict db slot =
    let course = course_of db slot.course_id in
    let section = section_of db slot.section_id in
    let faculty = user_of db slot.faculty_id in
    let room = room_of db slot.room_id in
    let course_code = field_or "" (λ (c : Course). c.code) course in
    let course_name = field_or "" (λ (c : Course). c.name) course in
    let faculty_email = field_or "" (λ (u : User). u.email) faculty in
    obj (
      "id"
      ↪ text slot.id ⨾ "slot_id"
      ↪ text slot.id ⨾ "course_code"
      ↪ text course_code ⨾ "course_name"
      ↪ text course_name ⨾ "subject_code"
      ↪ text course_code ⨾ "subject_name"
      ↪ text course_name ⨾ "section_id"
      ↪ text (field_or "" (λ (s : Section). s.id) section) ⨾ "section_name"
      ↪ text (field_or "" (λ (s : Section). s.name) section) ⨾ "faculty_id"
      ↪ text faculty_email ⨾ "faculty_name"
      ↪ text (field_or "" (λ (u : User). u.name) faculty) ⨾ "faculty_emails"
      ↪ arr
          (if truthy faculty_email then Items.cons (text faculty_email) Items.nil else Items.nil) ⨾
        "room_number"
      ↪ text (field_or "" (λ (r : Room). r.room_number) room) ⨾ "room_id"
      ↪ text (field_or "" (λ (r : Room). r.id) room) ⨾ "day_of_week"
      ↪ num slot.day_of_week ⨾ "start_time"
      ↪ text slot.start_time ⨾ "end_time"
      ↪ text slot.end_time ⨾ "slot_type"
      ↪ text (slot_type_value slot.slot_type) ⨾ "class_type"
      ↪ text (if truthy slot.class_type then slot.class_type else "Lecture") ⨾ end)

abbrev pub day_and_start : TimetableSlot → ℕ × String
day_and_start slot = (slot.day_of_week, slot.start_time)

-- The query: the slots of the room, by day and start time.
unfoldable pub schedule_rows : (room : String) → Db → List TimetableSlot
schedule_rows room db =
    sort_by (pair_order number_order text_order) day_and_start
      (keep (λ (s : TimetableSlot). same s.room_id room) db.slots)

-- `day_map[day_name].append(value)`; a missing key raises.
abbrev pub append_at : String → Json → Dict (List Json) → Option (Dict (List Json))
append_at key value days = elim (lookup key days) [
  | none ↦ none
  | some values ↦ some (insert key (values ++ value ∷ []) days)
]

-- `day_map` and `flat_list`
abbrev pub Schedule : Type 0
Schedule = Dict (List Json) × List Json

-- The loop of `_build_schedule`.
unfoldable pub fill_schedule : Db → List TimetableSlot → Schedule → Result Schedule
unfolding day_name
fill_schedule db [] schedule = ok schedule
fill_schedule db (slot ∷ slots) (days, flat) =
    let value = slot_to_dict db slot in
    elim (append_at (day_name slot.day_of_week) value days) [
      | none ↦ err crash
      | some more ↦ fill_schedule db slots (more, flat ++ value ∷ [])
    ]

-- `_build_schedule`
unfoldable pub build_schedule : (room : String) → Db → Result Schedule
unfolding fill_schedule schedule_rows
build_schedule room db = fill_schedule db (schedule_rows room db) (empty_days, [])
