-- ===== src/Attendance/Tests.antt =====
-- A submission for a session of three students.
use intelli_attend_smart_boa.Base.{
  ◌≡◌, none, some, List, [], ◌∷◌, ◌&&◌, same, String, arith, if◌then◌else◌,
}
use intelli_attend_smart_boa.Models.{SessionAttendee, AttendeeStatus}
use intelli_attend_smart_boa.Fixtures.{test_env, empty_db, first_broken, room_of_two}
use intelli_attend_smart_boa.Attendance.{
  World, submit, new_row, handle_attendance_submit, submit_attendance_rest,
}
use intelli_attend_smart_boa.Attendance.Laws.{
  listed, recorded, recorded-submit, rest-eq-socket, HasOneRow,
}

abbrev rows : List SessionAttendee
rows = new_row 1 AttendeeStatus.present "SESS_1" "ada" ∷ []

abbrev present : List String
present = "ada" ∷ "bob" ∷ []

abbrev absent : List String
absent = "bob" ∷ []

recorded-submit_example : recorded "SESS_1" "bob" (submit 9 "SESS_1" present absent rows) ≡ (
    if same "SESS_1" "SESS_1" && listed "bob" absent
    then some (AttendeeStatus.absent, 9)
    else if same "SESS_1" "SESS_1" && listed "bob" present
    then some (AttendeeStatus.present, 9)
    else recorded "SESS_1" "bob" rows)
recorded-submit_example = recorded-submit 9 "SESS_1" "SESS_1" "bob" present absent rows

abbrev world : World
world = record { db = record empty_db { attendees = rows }; rooms = room_of_two }

rest-eq-socket_example :
    (submit_attendance_rest test_env first_broken none 9 "SESS_1" present absent world).1
    ≡ (handle_attendance_submit test_env first_broken none 9 "SESS_1" present absent world).0
rest-eq-socket_example = rest-eq-socket test_env first_broken none 9 "SESS_1" present absent world

rows-HasOneRow : HasOneRow rows
rows-HasOneRow s e = ground arith
