-- ===== src/Fleet/Report/Laws.antt =====
-- What an upsert keeps, and what a board's report leaves in its row.
use intelli_attend_smart_boa.Base.{
  ℕ, ◌≤◌, String, ◌≡◌, refl, ◌≢◌, true, false, none, some, List, [], ◌∷◌, ◌++◌, arith, same,
  same_iff, same_refl, find, count_where, count_where-append, Option-cases, inl, inr, if◌then◌else◌,
  find-modify_first, find_holds, find-append_none, count_where-find-none, count_where-modify_first,
  find-append_ne, find-modify_first_ne, ◌∙◌, ◌||◌,
}
use intelli_attend_smart_boa.Json.{text, obj, end, ◌↪◌⨾◌}
use intelli_attend_smart_boa.Http.{ok, get_db}
use intelli_attend_smart_boa.Models.{Db, BoardVersion}
use intelli_attend_smart_boa.Fleet.Report.{
  for_version, upsert_version, UpdateStatusReport, reported_row, apply_report, status_event,
  report_update_status,
}

-- No two rows are of one board.
abbrev pub IsUnique : List BoardVersion → Type 0
IsUnique versions = (k : String) → count_where (for_version k) versions ≤ 1

-- An upsert that keeps keys leaves the rows unique.
pub upsert_version-IsUnique :
    (board : String) (new : BoardVersion) (change : BoardVersion → BoardVersion)
    (versions : List BoardVersion)
    → new.board_id ≡ board
    → ((bv : BoardVersion) → (change bv).board_id ≡ bv.board_id)
    → IsUnique versions
    → IsUnique (upsert_version board new change versions)
unfolding upsert_version
upsert_version-IsUnique board new change versions mine keeps h k =
    elim (Option-cases (find (for_version board) versions)) [
      | inl none_yet ↦ ground (
        arith,
        h k,
        same_iff board k,
        count_where-find-none (for_version board) versions none_yet,
        count_where-append (for_version k) versions (new ∷ []),
      )
      | inr (bv, found) ↦ ground (
        arith,
        h k,
        count_where-modify_first (for_version k) (for_version board) change versions
            (λ x. rw (keeps x)),
      )
    ]

-- The row of the board after an upsert: the old one changed, or else the new one.
pub find-upsert_version :
    (board : String) (new : BoardVersion) (change : BoardVersion → BoardVersion)
    (versions : List BoardVersion)
    → new.board_id ≡ board
    → ((bv : BoardVersion) → (change bv).board_id ≡ bv.board_id)
    → find (for_version board) (upsert_version board new change versions)
      ≡ elim (find (for_version board) versions) [ none ↦ some new | some bv ↦ some (change bv) ]
unfolding upsert_version
find-upsert_version board new change versions mine keeps =
    elim (Option-cases (find (for_version board) versions)) [
      | inl e ↦
          ground
            (arith, same_refl board, find-append_none (for_version board) versions (new ∷ []) e)
      | inr (bv, e) ↦ ground (
        arith,
        keeps bv,
        find_holds (for_version board) versions bv e,
        find-modify_first (for_version board) change versions bv e,
      )
    ]

differs :
    (board other : String) (change : BoardVersion → BoardVersion)
    → board ≢ other
    → ((bv : BoardVersion) → (change bv).board_id ≡ bv.board_id)
    → (x : BoardVersion) → for_version board x ≡ true
    → (for_version other x ≡ false) × (for_version other (change x) ≡ false)
differs board other change ne keeps x h =
    ground (arith, keeps x, same_iff x.board_id board, same_iff x.board_id other)

-- The rows of other boards are not touched.
pub find-upsert_version_ne :
    (board other : String) (new : BoardVersion) (change : BoardVersion → BoardVersion)
    (versions : List BoardVersion)
    → board ≢ other
    → new.board_id ≡ board
    → ((bv : BoardVersion) → (change bv).board_id ≡ bv.board_id)
    → find (for_version other) (upsert_version board new change versions)
      ≡ find (for_version other) versions
unfolding upsert_version
find-upsert_version_ne board other new change versions ne mine keeps =
    elim (Option-cases (find (for_version board) versions)) [
      | inl e ↦
          ground (arith, same_iff board other, find-append_ne (for_version other) versions new)
      | inr (bv, e) ↦ ground (
        arith,
        find-modify_first_ne (for_version other) (for_version board) change versions
            (differs board other change ne keeps),
      )
    ]

-- A change to a row leaves its key alone.
pub apply_report-board_id :
    (now : ℕ) (report : UpdateStatusReport) (bv : BoardVersion)
    → (apply_report now report bv).board_id ≡ bv.board_id
unfolding apply_report
apply_report-board_id now report bv = ground arith

statuses_differ : (same "completed" "failed" || same "completed" "rolled_back") ≡ false
unfolding same
statuses_differ = refl

completed_apart :
    (s : String) → same s "completed" ≡ true → (same s "failed" || same s "rolled_back") ≡ false
completed_apart s h = rw ((same_iff s "completed").0 h) statuses_differ

-- What a report makes of an old row `bv`.
abbrev pub Reported : ℕ → UpdateStatusReport → BoardVersion → BoardVersion → Type 0
Reported now report bv bv' =
    (bv'.current_version ≡ some report.current_version)
    × (bv'.update_status ≡ report.status)
    × (bv'.last_update_at ≡ some now)
    × (bv'.rollback_count ≡ report.rollback_count)
    × (bv'.target_version ≡ (if same report.status "completed" then none else bv.target_version))
    × (bv'.last_error ≡ (
        if same report.status "failed" || same report.status "rolled_back"
        then some report.status
        else bv.last_error))

apply_report-Reported :
    (now : ℕ) (report : UpdateStatusReport) (bv : BoardVersion)
    → Reported now report bv (apply_report now report bv)
unfolding apply_report
apply_report-Reported now report bv = ground (
  arith,
  same_iff report.status "completed",
  same_iff report.status "failed",
  same_iff report.status "rolled_back",
  completed_apart report.status,
)

-- A report is always accepted. It leaves one row for the board, with the reported version, status,
-- rollback count and time: a new one, or the old one, whose target is cleared if the update was
-- completed and kept otherwise, and whose last error is the status if it failed or was rolled back
-- and kept otherwise. The rows of other boards are not touched, and one event is appended.
pub report_update_status_lem :
    (now : ℕ) (board : String) (report : UpdateStatusReport) (db : Db)
    → let (r, db') = report_update_status now board report db in
      (r ≡ ok (obj ("status" ↪ text "ok" ⨾ end)))
      × (db'.events ≡ db.events ++ status_event now board report ∷ [])
      × (find (for_version board) db.versions ≡ none
          → find (for_version board) db'.versions ≡ some (reported_row now board report))
      × ((bv : BoardVersion)
          → find (for_version board) db.versions ≡ some bv
          → (bv' : BoardVersion) × (find (for_version board) db'.versions ≡ some bv')
            × Reported now report bv bv')
      × ((other : String)
          → board ≢ other
          → find (for_version other) db'.versions ≡ find (for_version other) db.versions)
unfolding report_update_status get_db
report_update_status_lem now board report db =
    let new = reported_row now board report in
    let change = apply_report now report in
    let keeps = apply_report-board_id now report in
    let row = find-upsert_version board new change db.versions refl keeps in
    (
      refl,
      refl,
      (λ h. row ∙ (rw h)),
      (λ bv h. (change bv, row ∙ (rw h), apply_report-Reported now report bv)),
      (λ other ne. find-upsert_version_ne board other new change db.versions ne refl keeps),
    )
