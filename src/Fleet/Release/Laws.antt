-- ===== src/Fleet/Release/Laws.antt =====
-- At most one release is active, and it is the one that boards are told of.
use intelli_attend_smart_boa.Base.{
  ℕ, String, ◌≡◌, refl, ◌≢◌, Bool, true, none, some, List, [], ◌∷◌, ◌++◌, map, count_where,
  count_where-append, arith, or_else, same, same_iff, truthy, ◌^^◌, Option-cases, inl, inr, ◌⊎◌,
}
use intelli_attend_smart_boa.Json.{Json, PyInt, num, bool, text, obj, end, ◌↪◌⨾◌}
use intelli_attend_smart_boa.Http.{Error, http, crash, ok, err, get_db}
use intelli_attend_smart_boa.Models.{Db, ReleaseManifest, BoardVersion}
use intelli_attend_smart_boa.Env.{Env}
use intelli_attend_smart_boa.Fleet.Release.{
  deactivate, publish, latest_from, active_release, CiUpload, uploaded, ci_upload,
  AdminRollbackRequest, rollback_manifest, admin_rollback_all, UpdateVariables, force_update,
}

abbrev pub active_count : List ReleaseManifest → ℕ
active_count = count_where (λ (rm : ReleaseManifest). rm.is_active)

active_count-deactivate : (ms : List ReleaseManifest) → active_count (map deactivate ms) ≡ 0
unfolding deactivate
active_count-deactivate [] = refl
active_count-deactivate (rm ∷ ms) = ground (arith, active_count-deactivate ms)

active_count-publish :
    (rm : ReleaseManifest) (ms : List ReleaseManifest)
    → rm.is_active ≡ true
    → active_count (publish rm ms) ≡ 1
unfolding publish
active_count-publish rm ms h =
    let active : ReleaseManifest → Bool = λ m. m.is_active in
    ground
      (arith, active_count-deactivate ms, count_where-append active (map deactivate ms) (rm ∷ []))

latest_from-publish :
    (rm : ReleaseManifest) (ms : List ReleaseManifest)
    → rm.is_active ≡ true
    → latest_from none (map deactivate ms ++ rm ∷ []) ≡ some rm
unfolding latest_from deactivate
latest_from-publish rm [] h = ground arith
latest_from-publish rm (m ∷ ms) h = ground (arith, latest_from-publish rm ms h)

active_release-publish :
    (rm : ReleaseManifest) (ms : List ReleaseManifest)
    → rm.is_active ≡ true
    → active_release (publish rm ms) ≡ some rm
unfolding active_release publish
active_release-publish rm ms h = latest_from-publish rm ms h

-- A successful CI upload had the configured deploy key, a version and a rollout that is a number.
-- It leaves exactly one active manifest, the uploaded one, which is then the one that every board
-- is told of, and it changes no other table.
pub ci_upload_publishes :
    (env : Env) (deploy_key repo key : String) (now : ℕ) (q : CiUpload) (db db' : Db)
    (answer : Json)
    → ci_upload env deploy_key repo now key q db ≡ (ok answer, db')
    → (rollout : PyInt) × (env.parse_int q.rollout_percentage ≡ some rollout)
      × (key ≡ deploy_key)
      × (deploy_key ≢ "")
      × (q.version ≢ "")
      × (active_count db'.manifests ≡ 1)
      × (active_release db'.manifests ≡ some (uploaded env deploy_key repo now rollout q))
      × (db' ≡ record db { manifests = db'.manifests })
unfolding ci_upload
ci_upload_publishes env deploy_key repo key now q db db' answer e =
    elim (Option-cases (env.parse_int q.rollout_percentage)) [
      | inl bad ↦ absurd (ground arith)
      | inr (rollout, good) ↦
          let rm = uploaded env deploy_key repo now rollout q in
          let published : db'.manifests ≡ publish rm db.manifests = ground arith in
          (
            rollout,
            good,
            ground (arith, same_iff key deploy_key),
            ground (arith, same_iff deploy_key ""),
            ground (arith, same_iff q.version ""),
            rw published (active_count-publish rm db.manifests refl),
            rw published (active_release-publish rm db.manifests refl),
            ground arith,
          )
    ]

-- An upload that is refused, for a missing key on the server, a wrong key, no version, or a rollout
-- that is no number, changes nothing.
pub ci_upload_refused :
    (env : Env) (deploy_key repo key : String) (now : ℕ) (q : CiUpload) (db db' : Db) (e : Error)
    → ci_upload env deploy_key repo now key q db ≡ (err e, db')
    → (db' ≡ db)
      × (((deploy_key ≡ "") × (e ≡ http 503 "CI upload not configured (DEPLOY_KEY not set)"))
          ⊎ (((key ≢ deploy_key) × (e ≡ http 401 "Invalid deploy key"))
              ⊎ (((q.version ≡ "") × (e ≡ http 400 "version is required"))
                  ⊎ ((env.parse_int q.rollout_percentage ≡ none) × (e ≡ crash)))))
unfolding ci_upload
ci_upload_refused env deploy_key repo key now q db db' e h =
    ground (arith, same_iff key deploy_key, same_iff deploy_key "", same_iff q.version "")

truthy_of : (s : String) → s ≢ "" → truthy s ≡ true
truthy_of s h = ground (arith, same_iff s "")

or_else_empty : (a : String) → or_else (some a) "" ≡ a
or_else_empty a = ground (arith, same_iff a "")

-- What a board is told of a rollback's manifest.
fleet_configuration :
    (env : Env) (now later : ℕ) (vars : UpdateVariables) (q : AdminRollbackRequest) (db : Db)
    → force_update env later vars (publish (rollback_manifest now q) db.manifests)
      ≡ obj (
          "minimum_version"
          ↪ text q.target_version ⨾ "download_url"
          ↪ text "" ⨾ "sha256"
          ↪ text "" ⨾ "force"
          ↪ bool true ⨾ "rollout_percentage"
          ↪ num 100 ⨾ "release_notes"
          ↪ text ("Fleet rollback: " ^^ q.reason) ⨾ "published_at"
          ↪ text (env.isoformat now) ⨾ end)
unfolding force_update same
fleet_configuration env now later vars q db =
    rw
      (
        force_update,
        active_release-publish (rollback_manifest now q) db.manifests refl,
        or_else_empty ("Fleet rollback: " ^^ q.reason),
      )
      refl

-- A fleet rollback without a version is refused and changes nothing. One that names a version, with
-- its reason, leaves one active manifest, so that the configuration of every board at any later time
-- forces the update to that version on all of them; it gives every board's row that version as its
-- target and the status "rolling_back", keeping the rest of the row, and logs for each row, in order,
-- one event "admin_rollback" with the status "triggered", the target and the reason. It changes no
-- other table.
pub admin_rollback_all_lem :
    (env : Env) (now later : ℕ) (vars : UpdateVariables) (q : AdminRollbackRequest) (db : Db)
    → let (r, db') = admin_rollback_all now q db in
      (q.target_version ≡ "" → (r ≡ err (http 400 "target_version is required")) × (db' ≡ db))
      × (q.target_version ≢ ""
          → (active_count db'.manifests ≡ 1)
            × (force_update env later vars db'.manifests
                ≡ obj (
                    "minimum_version"
                    ↪ text q.target_version ⨾ "download_url"
                    ↪ text "" ⨾ "sha256"
                    ↪ text "" ⨾ "force"
                    ↪ bool true ⨾ "rollout_percentage"
                    ↪ num 100 ⨾ "release_notes"
                    ↪ text ("Fleet rollback: " ^^ q.reason) ⨾ "published_at"
                    ↪ text (env.isoformat now) ⨾ end))
            × (db' ≡ record db {
              manifests = db'.manifests;
              versions =
                  map
                    (λ (bv : BoardVersion). record bv {
                      target_version = some q.target_version;
                      update_status = "rolling_back";
                    })
                    db.versions;
              events =
                  db.events
                  ++ map
                      (λ (bv : BoardVersion). record {
                        board_id = bv.board_id;
                        event_type = "admin_rollback";
                        current_version = none;
                        previous_version = none;
                        target_version = some q.target_version;
                        status = some "triggered";
                        stable_startups = none;
                        rollback_count = none;
                        error_message = some ("Fleet rollback: " ^^ q.reason);
                        created_at = now;
                      })
                      db.versions;
            }))
unfolding admin_rollback_all get_db force_update
admin_rollback_all_lem env now later vars q db =
    let rm = rollback_manifest now q in
    let unnamed = same_iff q.target_version "" in
    (
      (λ h. ground (arith, unnamed)),
      (λ h.
          let t = truthy_of q.target_version h in
          rw t (
            active_count-publish rm db.manifests refl,
            fleet_configuration env now later vars q db,
            refl,
          )),
    )
