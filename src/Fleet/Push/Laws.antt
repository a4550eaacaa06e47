-- ===== src/Fleet/Push/Laws.antt =====
-- What a push or a rollback of one board records, and what it sends.
use intelli_attend_smart_boa.Base.{
  ℕ, String, ◌≡◌, refl, ◌≢◌, Bool, true, none, some, List, [], ◌∷◌, ◌++◌, arith, same_iff,
  same_refl, truthy, find, modify_first, Bool-cases, inl, inr, if◌then◌else◌, ◌≤◌, ltb, ◌&&◌,
}
use intelli_attend_smart_boa.Json.{Json, text, obj, end, ◌↪◌⨾◌}
use intelli_attend_smart_boa.Http.{http, ok, err}
use intelli_attend_smart_boa.Models.{Db, BoardVersion, UpdateEvent}
use intelli_attend_smart_boa.Sockets.Boards.{send_or_queue}
use intelli_attend_smart_boa.Sockets.Boards.Laws.{Placed, send_or_queue_cases}
use intelli_attend_smart_boa.Admin.Guard.{World}
use intelli_attend_smart_boa.Fleet.Report.{for_version, new_version}
use intelli_attend_smart_boa.Fleet.Report.Laws.{find-upsert_version, find-upsert_version_ne}
use intelli_attend_smart_boa.Fleet.Release.{AdminRollbackRequest, rolling_back, rollback_event}
use intelli_attend_smart_boa.Fleet.Push.{
  AdminUpdateRequest, set_target, update_payload, rollback_update, is_report, last_report,
  rollback_target, answer_of, admin_push_update, admin_rollback_board,
}

-- The tables with other versions and one more event.
abbrev pub push_result : Db → List BoardVersion → UpdateEvent → Db
push_result db versions e = record db { versions = versions; events = db.events ++ e ∷ [] }

module _ (delivers : ℕ → Json → Bool) (now : ℕ) (cmd_id issued board : String) where
  -- A push gives the board's row the target and the status "downloading" and keeps the rest of the
  -- row; a board without a row gets one with these, the version "0.0.0" and no more; no other board's
  -- row and no table but those of versions and events changes. It logs one event "admin_push" with
  -- the status "pushed" and the target; and its payload is sent to the board or queued for it, as the
  -- answer says.
  pub admin_push_update_lem :
      (q : AdminUpdateRequest) (w : World)
      → let (r, w') = admin_push_update delivers now cmd_id issued board q w in
        (sent : Bool) × (r ≡ ok (answer_of sent cmd_id board))
        × (find (for_version board) w'.db.versions ≡ elim (find (for_version board) w.db.versions) [
          | none ↦ some (record {
            board_id = board;
            current_version = some "0.0.0";
            target_version = some q.target_version;
            update_status = "downloading";
            download_progress = 0;
            last_update_at = none;
            last_heartbeat_at = none;
            last_error = none;
            rollback_count = 0;
          })
          | some bv ↦
              some (record bv {
                target_version = some q.target_version;
                update_status = "downloading";
              })
        ])
        × ((other : String)
            → board ≢ other
            → find (for_version other) w'.db.versions ≡ find (for_version other) w.db.versions)
        × (w'.db
            ≡ push_result w.db w'.db.versions (record {
              board_id = board;
              event_type = "admin_push";
              current_version = none;
              previous_version = none;
              target_version = some q.target_version;
              status = some "pushed";
              stable_startups = none;
              rollback_count = none;
              error_message = none;
              created_at = now;
            }))
        × Placed delivers board (update_payload cmd_id issued q) w.boards sent w'.boards
  unfolding admin_push_update
  admin_push_update_lem q w =
      let payload = update_payload cmd_id issued q in
      let new = set_target q.target_version (new_version board) in
      let change = set_target q.target_version in
      (
        (send_or_queue delivers board payload w.boards).0,
        refl,
        find-upsert_version board new change w.db.versions refl (λ bv. refl),
        (λ other ne.
            find-upsert_version_ne board other new change w.db.versions ne refl (λ bv. refl)),
        refl,
        send_or_queue_cases delivers board payload w.boards,
      )

  -- A rollback whose target is not known, because none is requested and the board has no row or no
  -- last report with a previous version, is refused with 400 and neither records nor sends anything.
  pub admin_rollback_board_refused :
      (q : AdminRollbackRequest) (w : World)
      → rollback_target board q.target_version w.db ≡ ""
      → admin_rollback_board delivers now cmd_id issued board q w
        ≡ (err (http 400 "Cannot determine rollback target version"), w)
  unfolding admin_rollback_board
  admin_rollback_board_refused q w h = ground (arith, same_refl "")

  -- Any other rollback sets the target of the board's row, if it has one, and marks it as rolling
  -- back; it logs one event; and it sends or queues an update to the target that is forced on every
  -- board, as the answer says.
  pub admin_rollback_board_lem :
      (q : AdminRollbackRequest) (w : World)
      → let target = rollback_target board q.target_version w.db in
        let (r, w') = admin_rollback_board delivers now cmd_id issued board q w in
        target ≢ ""
        → (sent : Bool) × (r
            ≡ ok (
                obj (
                  "status"
                  ↪ text (if sent then "sent" else "queued") ⨾ "command_id"
                  ↪ text cmd_id ⨾ "board_id"
                  ↪ text board ⨾ "target_version"
                  ↪ text target ⨾ end)))
          × (w'.db.versions ≡ modify_first (for_version board) (rolling_back target) w.db.versions)
          × (w'.db.events ≡ w.db.events ++ rollback_event now target q.reason board ∷ [])
          × Placed delivers board
              (update_payload cmd_id issued (rollback_update target q.reason))
              w.boards
              sent
              w'.boards
  unfolding admin_rollback_board
  admin_rollback_board_lem q w h =
      let target = rollback_target board q.target_version w.db in
      let payload = update_payload cmd_id issued (rollback_update target q.reason) in
      let t : truthy target ≡ true = ground (arith, same_iff target "") in
      rw t (
        (send_or_queue delivers board payload w.boards).0,
        refl,
        refl,
        refl,
        send_or_queue_cases delivers board payload w.boards,
      )

-- All status reports of the board were created at a time or before it.
abbrev pub NoneAfter : String → ℕ → List UpdateEvent → Type 0
NoneAfter board t [] = Unit
NoneAfter board t (e ∷ rest) =
    (is_report board e ≡ true → e.created_at ≤ t) × NoneAfter board t rest

last_report_from :
    (board : String) (b e : UpdateEvent) (events : List UpdateEvent)
    → is_report board b ≡ true
    → last_report board (some b) events ≡ some e
    → (is_report board e ≡ true)
      × (b.created_at ≤ e.created_at)
      × NoneAfter board e.created_at events
unfolding last_report
last_report_from board b e [] h k = let p : b ≡ e = ground arith in rw (← p) (h, omega arith, tt)
last_report_from board b e (x ∷ events) h k =
    elim (Bool-cases (is_report board x && ltb b.created_at x.created_at)) [
      | inl newer ↦
          let (r, le, all) = last_report_from board x e events (ground arith) (ground arith) in
          (r, ground arith, ((λ i. le), all))
      | inr older ↦
          let (r, le, all) = last_report_from board b e events h (ground arith) in
          (r, le, ((λ i. ground arith), all))
    ]

-- The version that a rollback falls back on is that of the board's newest status report: the
-- report that is taken is one of the board, and no report of the board is newer.
pub last_report_newest :
    (board : String) (e : UpdateEvent) (events : List UpdateEvent)
    → last_report board none events ≡ some e
    → (is_report board e ≡ true) × NoneAfter board e.created_at events
unfolding last_report
last_report_newest board e [] h = absurd (ground arith)
last_report_newest board e (x ∷ events) h = elim (Bool-cases (is_report board x)) [
  | inl mine ↦
      let (r, le, all) = last_report_from board x e events mine (ground arith) in
      (r, ((λ i. le), all))
  | inr other ↦
      let (r, all) = last_report_newest board e events (ground arith) in
      (r, ((λ i. absurd (ground arith)), all))
]
