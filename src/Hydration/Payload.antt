-- ===== src/Hydration/Payload.antt =====
-- The payload of a board, its cache, and the route: `get_hydration_payload`, `_build_profile`, and
-- `board_hydrate` behind its dependencies. `iterate` is the order in which Python walks a set.
pub mod Laws
pub mod Cached
use intelli_attend_smart_boa.Base.{
  ℕ, String, Bool, true, false, not, Option, none, some, List, [], ◌∷◌, ◌^^◌, same, find, truthy,
  or_else, if◌then◌else◌,
}
use intelli_attend_smart_boa.Dict.{Dict}
use intelli_attend_smart_boa.Json.{
  Json, Items, Fields, null, bool, num, text, arr, obj, end, field, items, optional, get, put,
  ◌↪◌⨾◌,
}
use intelli_attend_smart_boa.Http.{
  Result, ok, err, http, crash, Action, pure, raise, gets, raise_if, modify, ◌>>=◌, ◌>>◌,
}
use intelli_attend_smart_boa.Models.{Db, User, Room, Institution}
use intelli_attend_smart_boa.Env.{Env}
use intelli_attend_smart_boa.Cache
use intelli_attend_smart_boa.Cache.{Redis}
use intelli_attend_smart_boa.Security.{BoardData, is_active}
use intelli_attend_smart_boa.Session.{World, falsy}
use intelli_attend_smart_boa.Session.Routes.{in_session, or_null}
use intelli_attend_smart_boa.Hydration.Schedule.{Schedule, user_of, room_of, build_schedule}
use intelli_attend_smart_boa.Hydration.Roster.{Pair, build_rosters}
use intelli_attend_smart_boa.Hydration.Manifest.{compute_manifest_hash}

-- `user.assigned_room` and `room.institution`
abbrev pub assigned_room : Db → User → Option Room
assigned_room db user = elim (user.room_id) [ none ↦ none | some id ↦ room_of db id ]

abbrev pub institution_of : Db → Option Room → Option Institution
institution_of db none = none
institution_of db (some room) =
    find (λ (i : Institution). same i.id room.institution_id) db.institutions

-- `row.field if row else None`
abbrev pub field_or_null : {A : Type 0} → (A → Option String) → Option A → Json
field_or_null column none = null
field_or_null column (some row) = optional (column row)

-- An `Optional` in an f-string.
abbrev pub shown : Option String → String
shown none = "None"
shown (some s) = s

-- `_build_profile`
unfoldable pub build_profile : BoardData → Db → Fields
build_profile board db = elim (user_of db board.user_id) [
  | none ↦
      "board_id"
      ↪ text board.user_id ⨾ "board_name"
      ↪ text "Unknown Board" ⨾ "room_id"
      ↪ optional board.room_id ⨾ "is_registered"
      ↪ bool false ⨾ "timezone"
      ↪ text "UTC" ⨾ end
  | some user ↦
      let room = assigned_room db user in
      let institution = institution_of db room in
      "board_id"
      ↪ text user.id ⨾ "board_name"
      ↪ text (or_else (some user.name) ("SmartBoard " ^^ shown board.room_id)) ⨾ "room_id"
      ↪ text (or_else board.room_id "") ⨾ "room_number"
      ↪ field_or_null (λ (r : Room). some r.room_number) room ⨾ "building"
      ↪ field_or_null (λ (r : Room). r.building) room ⨾ "floor"
      ↪ field_or_null (λ (r : Room). r.floor) room ⨾ "institution_id"
      ↪ field_or_null (λ (i : Institution). some i.id) institution ⨾ "institution_name"
      ↪ field_or_null (λ (i : Institution). some i.name) institution ⨾ "is_registered"
      ↪ bool (is_active user.auth_status) ⨾ "timezone"
      ↪ elim institution [ none ↦ text "UTC" | some i ↦ text i.timezone ] ⨾ end
]

-- A dict of lists.
abbrev pub lists_of : Dict (List Json) → Fields
lists_of [] = end
lists_of ((k, vs) ∷ d) = field k (arr (items vs)) (lists_of d)

abbrev pub cache_key : String → String
cache_key room = "hydrate:board:" ^^ room

-- The payload before its hash is set.
unfoldable pub payload_fields :
    Env → ℕ → (profile : Fields) → Schedule → (rosters : Dict (List Json)) → Fields
payload_fields env now profile (days, flat) rosters =
    "profile"
    ↪ obj profile ⨾ "schedule"
    ↪ obj (lists_of days) ⨾ "schedule_list"
    ↪ arr (items flat) ⨾ "rosters"
    ↪ obj (lists_of rosters) ⨾ "slot_definitions"
    ↪ obj end ⨾ "manifest_version"
    ↪ num 1 ⨾ "current_server_time"
    ↪ text (env.isoformat now) ⨾ "timezone"
    ↪ elim (get "timezone" profile) [ none ↦ text "UTC" | some v ↦ v ] ⨾ end

-- What is built where the cache has nothing.
unfoldable pub build_payload :
    Env → (List Pair → List Pair) → ℕ → BoardData → (room : String) → Db → Result Fields
unfolding build_profile payload_fields build_schedule build_rosters compute_manifest_hash
build_payload env iterate now board room db = elim (build_schedule room db) [
  | err e ↦ err e
  | ok schedule ↦
      let payload =
        payload_fields env now (build_profile board db) schedule (build_rosters iterate room db) in
      ok (put "manifest_hash" (text (compute_manifest_hash env (obj payload))) payload)
]

module _ {S : Type 0} (redis : Redis S) (env : Env) (iterate : List Pair → List Pair) where
  -- `CacheService.get_json` in a handler.
  abbrev pub read_cache : String → Action (World S) (Option Json)
  read_cache key w =
      let (v, cache) = Cache.get_json redis env key w.cache in (ok v, record w { cache = cache })

  unfoldable pub build_and_cache : ℕ → BoardData → (room : String) → Action (World S) Json
  unfolding build_payload
  build_and_cache now board room = do
    built ← gets (λ w. build_payload env iterate now board room w.db)
    elim built [
      | err e ↦ raise e
      | ok payload ↦ do
        modify (λ w. record w {
          cache = Cache.set_json redis env (cache_key room) (obj payload) 300 w.cache;
        })
        pure (obj payload)
    ]

  -- `get_hydration_payload`
  unfoldable pub get_hydration_payload : ℕ → BoardData → Action (World S) Json
  unfolding build_and_cache
  get_hydration_payload now board =
      let room = or_else board.room_id "" in
      if truthy room
      then (do
        cached ← read_cache (cache_key room)
        if falsy cached then build_and_cache now board room else pure (or_null cached))
      else pure (obj ("error" ↪ text "Board not bound to a room" ⨾ "code" ↪ num 400 ⨾ end))

  -- `"error" in payload`, of a dict: nothing else is stored under the key.
  abbrev pub answer : Json → Action (World S) Json
  answer (obj fields) = elim (get "error" fields) [
    | none ↦ pure (obj fields)
    | some e ↦ elim (get "code" fields) [
      | some (num code) ↦ elim e [ text d ↦ raise (http code d) | _ ↦ raise crash ]
      | none ↦ elim e [ text d ↦ raise (http 500 d) | _ ↦ raise crash ]
      | some _ ↦ raise crash
    ]
  ]
  answer payload = pure payload

  -- `board_hydrate`
  unfoldable pub board_hydrate : ℕ → BoardData → Action (World S) Json
  unfolding get_hydration_payload
  board_hydrate now board = in_session (do
    raise_if (not (truthy (or_else board.room_id ""))) (http 400 "Board not bound to a room")
    payload ← get_hydration_payload now board
    answer payload)
