-- ===== src/Hydration/Payload/Cached.antt =====
-- How long a cached payload is served.
use intelli_attend_smart_boa.Base.{
  ℕ, ◌≡◌, refl, ap, ◌∙◌, String, Bool, true, false, none, some, List, [], ◌∷◌, arith, truthy,
  or_else, same, same_refl, inl, inr, find,
}
use intelli_attend_smart_boa.Dict.{Dict, lookup, insert, erase, lookup-insert, lookup-erase}
use intelli_attend_smart_boa.Json.{Json, Fields, obj, get}
use intelli_attend_smart_boa.Http.{Error, ok, err}
use intelli_attend_smart_boa.Models.{Db, ActiveSession}
use intelli_attend_smart_boa.Env.{Env}
use intelli_attend_smart_boa.Cache
use intelli_attend_smart_boa.Cache.{Redis, Cache}
use intelli_attend_smart_boa.Cache.Laws.{IsOffline}
use intelli_attend_smart_boa.Security.{BoardData}
use intelli_attend_smart_boa.Session.{World, falsy, has_id}
use intelli_attend_smart_boa.Session.Routes.{in_session, terminate_session, invalidate}
use intelli_attend_smart_boa.Hydration.Schedule.{Schedule}
use intelli_attend_smart_boa.Hydration.Roster.{Pair}
use intelli_attend_smart_boa.Hydration.Payload.{
  payload_fields, build_payload, cache_key, build_and_cache, get_hydration_payload, board_hydrate,
}
use intelli_attend_smart_boa.Hydration.Payload.Laws.{hashed, Result-cases, build_payload-ok}

-- A payload is not empty and has no error.
abbrev IsServable : Fields → Type 0
IsServable fs = (falsy (some (obj fs)) ≡ false) × (get "error" fs ≡ none)

hashed-IsServable :
    (env : Env) (now : ℕ) (board : BoardData) (db : Db) (schedule : Schedule)
    (rosters : Dict (List Json))
    → IsServable (hashed env now board db schedule rosters)
unfolding payload_fields falsy same
hashed-IsServable env now board db (days, flat) rosters = (refl, refl)

build_payload-IsServable :
    (env : Env) (iterate : List Pair → List Pair) (board : BoardData) (room : String) (db : Db)
    (now : ℕ) (payload : Fields)
    → build_payload env iterate now board room db ≡ ok payload
    → IsServable payload
build_payload-IsServable env iterate board room db now payload h =
    let (schedule, k, e) = build_payload-ok env iterate board room db now payload h in
    rw e (hashed-IsServable env now board db schedule _)

lookup-insert_self : (k v : String) (d : Dict String) → lookup k (insert k v d) ≡ some v
lookup-insert_self k v d = ground (arith, lookup-insert k k v d, same_refl k)

lookup-erase_self : (k : String) (d : Dict String) → lookup k (erase k d) ≡ none
lookup-erase_self k d = ground (arith, lookup-erase k k d, same_refl k)

-- The boards of a list of requests are all in one room.
abbrev pub AllOfRoom : String → List (ℕ × BoardData × Db) → Type 0
AllOfRoom room [] = Unit
AllOfRoom room ((now, board, db) ∷ asked) = (or_else board.room_id "" ≡ room) × AllOfRoom room asked

module _ {S : Type 0} (redis : Redis S) (env : Env) (iterate : List Pair → List Pair) where
  -- Without Redis, nothing is cached: the payload is built and kept.
  hydrate_miss :
      (now : ℕ) (board : BoardData) (room : String) (w : World S) (payload : Fields)
      → or_else board.room_id "" ≡ room
      → truthy room ≡ true
      → IsOffline redis w.cache
      → lookup (cache_key room) w.cache.local ≡ none
      → build_payload env iterate now board room w.db ≡ ok payload
      → let (r, w') = board_hydrate redis env iterate now board w in
        (r ≡ ok (obj payload))
        × (w'.db ≡ w.db)
        × IsOffline redis w'.cache
        × (w'.cache.local ≡ insert (cache_key room) (env.dumps (obj payload)) w.cache.local)
  unfolding board_hydrate get_hydration_payload build_and_cache in_session Cache.get_json Cache.get
      Cache.get_client Cache.set_json Cache.set falsy
  hydrate_miss now board room w payload of_board named (cold, dead) absent built =
      let (_, plain) = build_payload-IsServable env iterate board room w.db now payload built in
      ground arith

  -- What is cached is served, whatever the tables hold.
  hydrate_hit :
      (now : ℕ) (board : BoardData) (room : String) (w : World S) (raw : String) (payload : Fields)
      → or_else board.room_id "" ≡ room
      → truthy room ≡ true
      → IsOffline redis w.cache
      → lookup (cache_key room) w.cache.local ≡ some raw
      → truthy raw ≡ true
      → env.loads raw ≡ some (obj payload)
      → IsServable payload
      → let (r, w') = board_hydrate redis env iterate now board w in
        (r ≡ ok (obj payload))
        × IsOffline redis w'.cache
        × (lookup (cache_key room) w'.cache.local ≡ some raw)
  unfolding board_hydrate get_hydration_payload in_session Cache.get_json Cache.get Cache.get_client
  hydrate_hit now board room w raw payload of_board named (cold, dead) held long back plain =
      ground arith

  -- The requests `asked`, one after the other, each on other tables, are all answered with a payload.
  abbrev pub AllAnswered : Fields → List (ℕ × BoardData × Db) → World S → Type 0
  AllAnswered payload [] w = Unit
  AllAnswered payload ((now, board, db) ∷ asked) w =
      let (r, w') = board_hydrate redis env iterate now board (record w { db = db }) in
      (r ≡ ok (obj payload)) × AllAnswered payload asked w'

  hits :
      (asked : List (ℕ × BoardData × Db)) (room : String) (w : World S) (raw : String)
      (payload : Fields)
      → AllOfRoom room asked
      → truthy room ≡ true
      → IsOffline redis w.cache
      → lookup (cache_key room) w.cache.local ≡ some raw
      → truthy raw ≡ true
      → env.loads raw ≡ some (obj payload)
      → IsServable payload
      → AllAnswered payload asked w
  hits [] room w raw payload of_room named offline held long back plain = tt
  hits ((now, board, db) ∷ asked) room w raw payload (h, of_room) named offline held long back
        plain =
      let (answered, offline', held') =
        hydrate_hit now board room (record w { db = db }) raw payload h named offline held long back
          plain in
      let w' = (board_hydrate redis env iterate now board (record w { db = db })).1 in
      (answered, hits asked room w' raw payload of_room named offline' held' long back plain)

  -- Without Redis, a payload that is built for a board because none was cached for its room is the
  -- answer, and it is also the answer to all requests that boards of that room send after that, at
  -- any time and whatever the tables hold by then, where nothing else touches the cache in between:
  -- the five minutes that the payload was stored for have no effect.
  pub hydrate_keeps :
      (now : ℕ) (board : BoardData) (asked : List (ℕ × BoardData × Db)) (room : String)
      (w : World S) (payload : Fields)
      → or_else board.room_id "" ≡ room
      → AllOfRoom room asked
      → truthy room ≡ true
      → IsOffline redis w.cache
      → lookup (cache_key room) w.cache.local ≡ none
      → build_payload env iterate now board room w.db ≡ ok payload
      → truthy (env.dumps (obj payload)) ≡ true
      → env.loads (env.dumps (obj payload)) ≡ some (obj payload)
      → let (r, w') = board_hydrate redis env iterate now board w in
        (r ≡ ok (obj payload)) × AllAnswered payload asked w'
  hydrate_keeps now board asked room w payload h of_room named offline absent built long back =
      let (answered, kept, offline', held) =
        hydrate_miss now board room w payload h named offline absent built in
      let w' = (board_hydrate redis env iterate now board w).1 in
      (
        answered,
        hits asked room w' (env.dumps (obj payload)) payload of_room named offline'
            (ap (λ d. lookup (cache_key room) d) held
              ∙ lookup-insert_self (cache_key room) _ w.cache.local)
            long back (build_payload-IsServable env iterate board room w.db now payload built),
      )

  -- The end of a session drops the payload of its room.
  terminate_session_clears :
      (delivers : ℕ → Json → Bool) (now : ℕ) (room id : String) (w : World S) (s : ActiveSession)
      → truthy room ≡ true
      → IsOffline redis w.cache
      → truthy id ≡ true
      → find (has_id id) w.db.sessions ≡ some s
      → s.room_id ≡ some room
      → let w' = (terminate_session redis env delivers now id w).1 in
        IsOffline redis w'.cache × (lookup (cache_key room) w'.cache.local ≡ none)
  unfolding terminate_session in_session invalidate Cache.delete Cache.get_client
  terminate_session_clears delivers now room id w s named (cold, dead) real found in_room =
      ground (arith, lookup-erase_self (cache_key room) w.cache.local)

  -- A request without a cached payload.
  hydrate_crash :
      (now : ℕ) (board : BoardData) (room : String) (w : World S) (e : Error)
      → or_else board.room_id "" ≡ room
      → truthy room ≡ true
      → IsOffline redis w.cache
      → lookup (cache_key room) w.cache.local ≡ none
      → build_payload env iterate now board room w.db ≡ err e
      → (board_hydrate redis env iterate now board w).0 ≡ err e
  unfolding board_hydrate get_hydration_payload build_and_cache in_session Cache.get_json Cache.get
      Cache.get_client falsy
  hydrate_crash now board room w e of_board named (cold, dead) absent built = ground arith

  -- Without Redis, where the id that is ended is that of a session in a room, the request that
  -- a board of the room sends next is answered with a payload that is built anew, from the tables as
  -- the end of the session left them, or it fails with the error of building it.
  pub hydrate-terminate_session :
      (delivers : ℕ → Json → Bool) (now now' : ℕ) (board : BoardData) (room id : String)
      (w : World S) (s : ActiveSession)
      → or_else board.room_id "" ≡ room
      → truthy room ≡ true
      → IsOffline redis w.cache
      → truthy id ≡ true
      → find (has_id id) w.db.sessions ≡ some s
      → s.room_id ≡ some room
      → let w' = (terminate_session redis env delivers now id w).1 in
        (board_hydrate redis env iterate now' board w').0
        ≡ elim (build_payload env iterate now' board room w'.db) [
          | ok payload ↦ ok (obj payload)
          | err e ↦ err e
        ]
  hydrate-terminate_session delivers now now' board room id w s h named offline real found in_room =
      let w' = (terminate_session redis env delivers now id w).1 in
      let (offline', absent) =
        terminate_session_clears delivers now room id w s named offline real found in_room in
      elim (Result-cases (build_payload env iterate now' board room w'.db)) [
        | inl (payload, e) ↦
            rw e (hydrate_miss now' board room w' payload h named offline' absent e).0
        | inr (x, e) ↦ rw e (hydrate_crash now' board room w' x h named offline' absent e)
      ]
