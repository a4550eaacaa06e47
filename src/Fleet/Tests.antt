-- ===== src/Fleet/Tests.antt =====
-- A fleet of one board, an upload, a rollback and a report.
use intelli_attend_smart_boa.Base.{
  String, ◌≡◌, refl, ◌≢◌, Bool, true, false, none, some, [], ◌∷◌, ◌++◌, ◌^^◌, map, arith, same,
  find,
}
use intelli_attend_smart_boa.Http.{http, ok, err}
use intelli_attend_smart_boa.Fleet.Release.{UpdateVariables, force_update}
use intelli_attend_smart_boa.Json.{num, bool, PyInt, natural, text, obj, end, ◌↪◌⨾◌}
use intelli_attend_smart_boa.Models.{Db, BoardVersion, ReleaseManifest}
use intelli_attend_smart_boa.Fixtures.{test_env, fleet_db, no_boards, first_broken, apart}
use intelli_attend_smart_boa.Sockets.Boards.Laws.{Placed}
use intelli_attend_smart_boa.Admin.Guard.{World}
use intelli_attend_smart_boa.Fleet.Release.{
  CiUpload, uploaded, ci_upload, publish, active_release, AdminRollbackRequest, admin_rollback_all,
}
use intelli_attend_smart_boa.Fleet.Release.Laws.{
  active_count, ci_upload_publishes, admin_rollback_all_lem,
}
use intelli_attend_smart_boa.Fleet.Report.{
  UpdateStatusReport, for_version, new_version, upsert_version, reported_row, status_event,
  report_update_status,
}
use intelli_attend_smart_boa.Fleet.Report.Laws.{
  IsUnique, Reported, upsert_version-IsUnique, report_update_status_lem,
}
use intelli_attend_smart_boa.Fleet.Push.{
  AdminUpdateRequest, set_target, push_event, update_payload, answer_of, rollback_target,
  admin_push_update,
}
use intelli_attend_smart_boa.Fleet.Push.Laws.{push_result, admin_push_update_lem}

abbrev upload : CiUpload
upload = record {
  version = "1.2.0";
  release_notes = "";
  force = "false";
  rollout_percentage = "100";
}

abbrev key : String
key = "key"

abbrev guess : String
guess = "guess"

abbrev new_release : ReleaseManifest
new_release = uploaded test_env "key" "org/repo" 20 (natural 100) upload

abbrev published_db : Db
published_db = record fleet_db { manifests = publish new_release fleet_db.manifests }

upload_ok :
    ci_upload test_env "key" "org/repo" 20 "key" upload fleet_db
    ≡ (ok (obj ("status" ↪ text "ok" ⨾ "version" ↪ text "1.2.0" ⨾ end)), published_db)
unfolding ci_upload same
upload_ok = refl

ci_upload_publishes_example :
    (rollout : PyInt) × (test_env.parse_int "100" ≡ some rollout)
    × (key ≡ key)
    × (key ≢ "")
    × (upload.version ≢ "")
    × (active_count published_db.manifests ≡ 1)
    × (active_release published_db.manifests
        ≡ some (uploaded test_env "key" "org/repo" 20 rollout upload))
    × (published_db ≡ record fleet_db { manifests = published_db.manifests })
ci_upload_publishes_example =
    ci_upload_publishes test_env "key" "org/repo" "key" 20 upload fleet_db published_db
      (obj ("status" ↪ text "ok" ⨾ "version" ↪ text "1.2.0" ⨾ end)) upload_ok

abbrev rollback : AdminRollbackRequest
rollback = record { target_version = "0.9.0"; reason = "broken" }

abbrev update_variables : UpdateVariables
update_variables = record {
  minimum_version = "";
  url = "";
  sha256 = "";
  force = "true";
  rollout_percentage = natural 100;
  release_notes = "";
}

admin_rollback_all_lem_example :
    let (r, db') = admin_rollback_all 20 rollback fleet_db in
    (rollback.target_version ≡ ""
      → (r ≡ err (http 400 "target_version is required")) × (db' ≡ fleet_db))
    × (rollback.target_version ≢ ""
        → (active_count db'.manifests ≡ 1)
          × (force_update test_env 40 update_variables db'.manifests
              ≡ obj (
                  "minimum_version"
                  ↪ text "0.9.0" ⨾ "download_url"
                  ↪ text "" ⨾ "sha256"
                  ↪ text "" ⨾ "force"
                  ↪ bool true ⨾ "rollout_percentage"
                  ↪ num 100 ⨾ "release_notes"
                  ↪ text ("Fleet rollback: " ^^ "broken") ⨾ "published_at"
                  ↪ text (test_env.isoformat 20) ⨾ end))
          × (db' ≡ record fleet_db {
            manifests = db'.manifests;
            versions =
                map
                  (λ (bv : BoardVersion). record bv {
                    target_version = some "0.9.0";
                    update_status = "rolling_back";
                  })
                  fleet_db.versions;
            events =
                fleet_db.events
                ++ map
                    (λ (bv : BoardVersion). record {
                      board_id = bv.board_id;
                      event_type = "admin_rollback";
                      current_version = none;
                      previous_version = none;
                      target_version = some "0.9.0";
                      status = some "triggered";
                      stable_startups = none;
                      rollback_count = none;
                      error_message = some ("Fleet rollback: " ^^ "broken");
                      created_at = 20;
                    })
                    fleet_db.versions;
          }))
admin_rollback_all_lem_example =
    admin_rollback_all_lem test_env 20 40 update_variables rollback fleet_db

abbrev failed_report : UpdateStatusReport
failed_report = record {
  current_version = "1.0.0";
  previous_version = "1.0.0";
  status = "failed";
  stable_startups = 0;
  rollback_count = 1;
  timestamp = "";
}

report_update_status_lem_example :
    let (r, db') = report_update_status 30 "B1" failed_report fleet_db in
    (r ≡ ok (obj ("status" ↪ text "ok" ⨾ end)))
    × (db'.events ≡ fleet_db.events ++ status_event 30 "B1" failed_report ∷ [])
    × (find (for_version "B1") fleet_db.versions ≡ none
        → find (for_version "B1") db'.versions ≡ some (reported_row 30 "B1" failed_report))
    × ((bv : BoardVersion)
        → find (for_version "B1") fleet_db.versions ≡ some bv
        → (bv' : BoardVersion) × (find (for_version "B1") db'.versions ≡ some bv')
          × Reported 30 failed_report bv bv')
    × ((other : String)
        → "B1" ≢ other
        → find (for_version other) db'.versions ≡ find (for_version other) fleet_db.versions)
report_update_status_lem_example = report_update_status_lem 30 "B1" failed_report fleet_db

fleet-IsUnique : IsUnique fleet_db.versions
fleet-IsUnique k = ground arith

upsert_version-IsUnique_example :
    IsUnique (upsert_version "B2" (new_version "B2") (set_target "1.2.0") fleet_db.versions)
upsert_version-IsUnique_example =
    upsert_version-IsUnique "B2" (new_version "B2") (set_target "1.2.0") fleet_db.versions refl
      (λ bv. refl) fleet-IsUnique

abbrev push : AdminUpdateRequest
push = record {
  target_version = "1.2.0";
  download_url = "https://releases/1.2.0.msi";
  sha256 = "";
  force = false;
  rollout_percentage = natural 100;
  release_notes = "";
}

abbrev fleet : World
fleet = record { db = fleet_db; boards = no_boards }

admin_push_update_lem_example :
    let (r, w') = admin_push_update first_broken 20 "c1" "now" "B1" push fleet in
    (sent : Bool) × (r ≡ ok (answer_of sent "c1" "B1"))
    × (find (for_version "B1") w'.db.versions ≡ elim (find (for_version "B1") fleet_db.versions) [
      | none ↦ some (set_target "1.2.0" (new_version "B1"))
      | some bv ↦ some (set_target "1.2.0" bv)
    ])
    × ((other : String)
        → "B1" ≢ other
        → find (for_version other) w'.db.versions ≡ find (for_version other) fleet_db.versions)
    × (w'.db ≡ push_result fleet_db w'.db.versions (push_event 20 "B1" "1.2.0"))
    × Placed first_broken "B1" (update_payload "c1" "now" push) no_boards sent w'.boards
admin_push_update_lem_example = admin_push_update_lem first_broken 20 "c1" "now" "B1" push fleet

abbrev unnamed_rollback : AdminRollbackRequest
unnamed_rollback = record { target_version = ""; reason = "broken" }

previous_target : rollback_target "B1" "" fleet_db ≢ ""
unfolding rollback_target same
previous_target = apart "0.9.0" "" refl
