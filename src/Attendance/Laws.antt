-- ===== src/Attendance/Laws.antt =====
-- What a submission leaves for every student, and that both paths leave the same.
use intelli_attend_smart_boa.Base.{
  ℕ, ◌≤◌, String, ◌≡◌, refl, Bool, true, false, Option, none, some, List, [], ◌∷◌, ◌&&◌, arith,
  same, same_iff, same_refl, find, some?, if◌then◌else◌, Option-cases, Bool-cases, inl, inr,
  find-append_none, find-append_ne, find-modify_first, find-modify_first_ne, find_holds,
  count_where, count_where-append, count_where-find-none, count_where-modify_first,
}
use intelli_attend_smart_boa.Json.{Json}
use intelli_attend_smart_boa.Http.{get_db}
use intelli_attend_smart_boa.Models.{SessionAttendee, AttendeeStatus}
use intelli_attend_smart_boa.Env.{Env}
use intelli_attend_smart_boa.Attendance.{
  is_row, new_row, mark, mark_all, submit, rest_present, rest_absent, World,
  handle_attendance_submit, submit_attendance_rest,
}

abbrev pub listed : String → List String → Bool
listed email emails = some? (λ e. same e email) emails

-- The status and time that the table holds for a student of a session.
abbrev pub recorded : (session email : String) → List SessionAttendee → Option (AttendeeStatus × ℕ)
recorded session email rows = elim (find (is_row session email) rows) [
  | none ↦ none
  | some r ↦ some (r.status, r.recorded_at)
]

mark_self :
    (now : ℕ) (status : AttendeeStatus) (session email : String) (rows : List SessionAttendee)
    → recorded session email (mark now status session email rows) ≡ some (status, now)
unfolding mark
mark_self now status session email rows =
    let p = is_row session email in
    elim (Option-cases (find p rows)) [
      | inl e ↦ ground (
        arith,
        same_refl session,
        same_refl email,
        find-append_none p rows (new_row now status session email ∷ []) e,
      )
      | inr (r, e) ↦ ground (
        arith,
        find_holds p rows r e,
        find-modify_first p (λ r. record r { status = status; recorded_at = now }) rows r e,
      )
    ]

rows_differ :
    (session s email e : String) (x : SessionAttendee)
    → (same session s && same email e) ≡ false
    → is_row session email x ≡ true
    → is_row s e x ≡ false
rows_differ session s email e x h k = ground (
  arith,
  same_iff session s,
  same_iff email e,
  same_iff x.session_id session,
  same_iff x.session_id s,
  same_iff x.student_id email,
  same_iff x.student_id e,
)

mark_ne :
    (now : ℕ) (status : AttendeeStatus) (session s email e : String) (rows : List SessionAttendee)
    → (same session s && same email e) ≡ false
    → recorded s e (mark now status session email rows) ≡ recorded s e rows
unfolding mark
mark_ne now status session s email e rows h =
    let p = is_row session email in
    elim (Option-cases (find p rows)) [
      | inl a ↦ ground (arith, find-append_ne (is_row s e) rows (new_row now status session email))
      | inr (r, a) ↦ ground (
        arith,
        find-modify_first_ne (is_row s e) p (λ r. record r { status = status; recorded_at = now })
            rows
            (λ x k. (rows_differ session s email e x h k, rows_differ session s email e x h k)),
      )
    ]

-- Marking a student sets that student's row, whether it was there or not, and no other student's.
recorded-mark :
    (now : ℕ) (status : AttendeeStatus) (session s email e : String) (rows : List SessionAttendee)
    → recorded s e (mark now status session email rows)
      ≡ (if same session s && same email e then some (status, now) else recorded s e rows)
recorded-mark now status session s email e rows =
    elim (Bool-cases (same session s && same email e)) [
      | inl both ↦
          let ps : session ≡ s = ground (arith, same_iff session s) in
          let pe : email ≡ e = ground (arith, same_iff email e) in
          rw both (rw (← ps, ← pe) (mark_self now status session email rows))
      | inr other ↦ rw other (mark_ne now status session s email e rows other)
    ]

recorded-mark_all :
    (now : ℕ) (status : AttendeeStatus) (session s e : String) (emails : List String)
    (rows : List SessionAttendee)
    → recorded s e (mark_all now status session emails rows)
      ≡ (if same session s && listed e emails then some (status, now) else recorded s e rows)
unfolding mark_all
recorded-mark_all now status session s e [] rows = ground arith
recorded-mark_all now status session s e (email ∷ emails) rows = ground (
  arith,
  recorded-mark_all now status session s e emails (mark now status session email rows),
  recorded-mark now status session s email e rows,
)

-- A submission leaves each student of the session that it names as absent absent, each other
-- student that it names as present present, both with its own time, and every other student, of
-- this session or another one, as the table had them; so a student in both lists ends up absent.
pub recorded-submit :
    (now : ℕ) (session s e : String) (present absent : List String) (rows : List SessionAttendee)
    → recorded s e (submit now session present absent rows) ≡ (
        if same session s && listed e absent
        then some (AttendeeStatus.absent, now)
        else if same session s && listed e present
        then some (AttendeeStatus.present, now)
        else recorded s e rows)
unfolding submit
recorded-submit now session s e present absent rows = ground (
  arith,
  recorded-mark_all now AttendeeStatus.absent session s e absent
      (mark_all now AttendeeStatus.present session present rows),
  recorded-mark_all now AttendeeStatus.present session s e present rows,
)

rest_present-mark_all :
    (now : ℕ) (session : String) (emails : List String) (rows : List SessionAttendee)
    → rest_present now session emails rows ≡ mark_all now AttendeeStatus.present session emails rows
unfolding rest_present mark_all mark
rest_present-mark_all now session [] rows = refl
rest_present-mark_all now session (email ∷ emails) rows =
    elim (Option-cases (find (is_row session email) rows)) [
      | inl e ↦ rw (e, rest_present, mark_all, mark) (rest_present-mark_all now session emails _)
      | inr (r, e) ↦
          rw (e, rest_present, mark_all, mark) (rest_present-mark_all now session emails _)
    ]

rest_absent-mark_all :
    (now : ℕ) (session : String) (emails : List String) (rows : List SessionAttendee)
    → rest_absent now session emails rows ≡ mark_all now AttendeeStatus.absent session emails rows
unfolding rest_absent mark_all mark
rest_absent-mark_all now session [] rows = refl
rest_absent-mark_all now session (email ∷ emails) rows =
    elim (Option-cases (find (is_row session email) rows)) [
      | inl e ↦ rw (e, rest_absent, mark_all, mark) (rest_absent-mark_all now session emails _)
      | inr (r, e) ↦ rw (e, rest_absent, mark_all, mark) (rest_absent-mark_all now session emails _)
    ]

-- The REST fallback and the socket path, which are two copies of the same loops, do the same: from
-- the same state, with the same lists and time, and whether or not the commit goes through, they
-- leave the same database and rooms, and so the same broadcast.
pub rest-eq-socket :
    (env : Env) (delivers : ℕ → Json → Bool) (commits : Option String) (now : ℕ) (session : String)
    (present absent : List String) (w : World)
    → (submit_attendance_rest env delivers commits now session present absent w).1
      ≡ (handle_attendance_submit env delivers commits now session present absent w).0
unfolding submit_attendance_rest handle_attendance_submit submit get_db
rest-eq-socket env delivers none now session present absent w =
    rw
      (
        rest_present-mark_all now session present w.db.attendees,
        rest_absent-mark_all now session absent
            (mark_all now AttendeeStatus.present session present w.db.attendees),
      )
      refl
rest-eq-socket env delivers (some error) now session present absent w = refl

-- No student has two rows in a session.
abbrev pub HasOneRow : List SessionAttendee → Type 0
HasOneRow rows = (s e : String) → count_where (is_row s e) rows ≤ 1

mark-HasOneRow :
    (now : ℕ) (status : AttendeeStatus) (session email : String) (rows : List SessionAttendee)
    → HasOneRow rows
    → HasOneRow (mark now status session email rows)
unfolding mark
mark-HasOneRow now status session email rows h s e =
    let p = is_row session email in
    elim (Option-cases (find p rows)) [
      | inl a ↦ elim (Bool-cases (same session s && same email e)) [
        | inl both ↦
            let ps : session ≡ s = ground (arith, same_iff session s) in
            let pe : email ≡ e = ground (arith, same_iff email e) in
            rw (← ps, ← pe)
              (ground (
                arith,
                count_where-find-none p rows a,
                count_where-append p rows (new_row now status session email ∷ []),
              ))
        | inr other ↦ ground (
          arith,
          h s e,
          count_where-append (is_row s e) rows (new_row now status session email ∷ []),
        )
      ]
      | inr (r, a) ↦ ground (
        arith,
        h s e,
        count_where-modify_first (is_row s e) p
            (λ r. record r { status = status; recorded_at = now }) rows (λ x. refl),
      )
    ]

mark_all-HasOneRow :
    (now : ℕ) (status : AttendeeStatus) (session : String) (emails : List String)
    (rows : List SessionAttendee)
    → HasOneRow rows
    → HasOneRow (mark_all now status session emails rows)
unfolding mark_all
mark_all-HasOneRow now status session [] rows h = h
mark_all-HasOneRow now status session (email ∷ emails) rows h =
    mark_all-HasOneRow now status session emails (mark now status session email rows)
      (mark-HasOneRow now status session email rows h)

-- The table declares no unique constraint on session and student, but where no student has two rows
-- in a session, no submission makes one, however often its lists name the student.
pub submit-HasOneRow :
    (now : ℕ) (session : String) (present absent : List String) (rows : List SessionAttendee)
    → HasOneRow rows
    → HasOneRow (submit now session present absent rows)
unfolding submit
submit-HasOneRow now session present absent rows h =
    mark_all-HasOneRow now AttendeeStatus.absent session absent
      (mark_all now AttendeeStatus.present session present rows)
      (mark_all-HasOneRow now AttendeeStatus.present session present rows h)
