-- ===== src/Hydration/Payload/Laws.antt =====
-- What the hash in a payload says, and what the cache of payloads keeps.
use intelli_attend_smart_boa.Base.{
  ℕ, ◌≡◌, refl, sym, ap, ◌∙◌, String, some, List, arith, same, inl, inr, ◌⊎◌,
}
use intelli_attend_smart_boa.Dict.{Dict}
use intelli_attend_smart_boa.Json.{Json, Fields, text, obj, get, put}
use intelli_attend_smart_boa.Http.{Result, Error, ok, err}
use intelli_attend_smart_boa.Models.{Db}
use intelli_attend_smart_boa.Env.{Env}
use intelli_attend_smart_boa.Security.{BoardData}
use intelli_attend_smart_boa.Hydration.Schedule.{Schedule, build_schedule}
use intelli_attend_smart_boa.Hydration.Roster.{Pair, build_rosters}
use intelli_attend_smart_boa.Hydration.Manifest.{is_excluded, clean, compute_manifest_hash}
use intelli_attend_smart_boa.Hydration.Manifest.Laws.{compute_manifest_hash-put}
use intelli_attend_smart_boa.Hydration.Payload.{build_profile, payload_fields, build_payload}

-- Payloads that differ in their time only have one hash.
hash-payload_fields :
    (env : Env) (now now' : ℕ) (profile : Fields) (schedule : Schedule) (rosters : Dict (List Json))
    → compute_manifest_hash env (obj (payload_fields env now profile schedule rosters))
      ≡ compute_manifest_hash env (obj (payload_fields env now' profile schedule rosters))
unfolding compute_manifest_hash clean is_excluded payload_fields same
hash-payload_fields env now now' profile (days, flat) rosters = refl

get-put_hash :
    (env : Env) (now : ℕ) (profile : Fields) (schedule : Schedule) (rosters : Dict (List Json))
    (v : Json)
    → get "manifest_hash" (put "manifest_hash" v (payload_fields env now profile schedule rosters))
      ≡ some v
unfolding payload_fields same
get-put_hash env now profile (days, flat) rosters v = refl

pub Result-cases :
    {A : Type 0} (r : Result A) → ((a : A) × (r ≡ ok a)) ⊎ ((e : Error) × (r ≡ err e))
Result-cases (ok a) = inl (a, refl)
Result-cases (err e) = inr (e, refl)

hash-put_hash :
    (env : Env) (v : Json) (fs : Fields)
    → compute_manifest_hash env (obj (put "manifest_hash" v fs))
      ≡ compute_manifest_hash env (obj fs)
unfolding is_excluded same
hash-put_hash env v fs = (compute_manifest_hash-put env "manifest_hash" v fs refl).0

-- The payload with its hash.
abbrev pub hashed : Env → ℕ → BoardData → Db → Schedule → Dict (List Json) → Fields
hashed env now board db schedule rosters =
    let fs = payload_fields env now (build_profile board db) schedule rosters in
    put "manifest_hash" (text (compute_manifest_hash env (obj fs))) fs

hash-hashed :
    (env : Env) (now now' : ℕ) (board : BoardData) (db : Db) (schedule : Schedule)
    (rosters : Dict (List Json))
    → compute_manifest_hash env (obj (hashed env now board db schedule rosters))
      ≡ compute_manifest_hash env
          (obj (payload_fields env now' (build_profile board db) schedule rosters))
hash-hashed env now now' board db schedule rosters =
    hash-put_hash env _ _
    ∙ hash-payload_fields env now now' (build_profile board db) schedule rosters

pub build_payload-ok :
    (env : Env) (iterate : List Pair → List Pair) (board : BoardData) (room : String) (db : Db)
    (now : ℕ) (payload : Fields)
    → build_payload env iterate now board room db ≡ ok payload
    → (schedule : Schedule) × (build_schedule room db ≡ ok schedule)
      × (payload ≡ hashed env now board db schedule (build_rosters iterate room db))
unfolding build_payload
build_payload-ok env iterate board room db now payload h =
    elim (Result-cases (build_schedule room db)) [
      | inr (e, k) ↦ absurd (ground arith)
      | inl (schedule, k) ↦ (schedule, k, ground arith)
    ]

-- A payload holds its own hash: who computes the hash of what is served gets the value that is
-- served in it. And the time plays no part: a payload that is built for the same board from the
-- same tables at another time has the same hash.
pub build_payload-hash :
    (env : Env) (iterate : List Pair → List Pair) (now now' : ℕ) (board : BoardData) (room : String)
    (db : Db) (payload : Fields)
    → build_payload env iterate now board room db ≡ ok payload
    → (get "manifest_hash" payload ≡ some (text (compute_manifest_hash env (obj payload))))
      × ((later : Fields) × (build_payload env iterate now' board room db ≡ ok later)
          × (compute_manifest_hash env (obj later) ≡ compute_manifest_hash env (obj payload)))
unfolding build_payload
build_payload-hash env iterate now now' board room db payload h =
    let rosters = build_rosters iterate room db in
    let (schedule, k, e) = build_payload-ok env iterate board room db now payload h in
    rw e (
      get-put_hash env now (build_profile board db) schedule rosters _
          ∙ ap (λ t. some (text t)) (sym (hash-hashed env now now board db schedule rosters)),
      (
        hashed env now' board db schedule rosters,
        rw (k, build_payload) refl,
        hash-hashed env now' now board db schedule rosters
            ∙ sym (hash-hashed env now now board db schedule rosters),
      ),
    )
