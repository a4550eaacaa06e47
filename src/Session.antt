-- ===== src/Session.antt =====
-- Class sessions: `SessionService` of backend/python/services/session_service.py (its PostgreSQL
-- versions), and in the child `Routes` the handlers of backend/python/main.py that use it. Random
-- draws are arguments: `hex` in upper case, `half1` the encoded sixteen bytes, `random` below 900000.
pub mod Routes
pub mod Initiate
pub mod Lifecycle
pub mod Monitor
pub mod Documents
mod Tests
use intelli_attend_smart_boa.Base.{
  ℕ, zero, ◌+◌, String, Bool, true, false, Option, none, some, List, [], ◌∷◌, ◌++◌, same, truthy,
  find, modify_where, or_else, str, slice_to, if◌then◌else◌, ◌^^◌,
}
use intelli_attend_smart_boa.Json.{Json, Fields, Items, null, num, text, obj, end, ◌↪◌⨾◌, get}
use intelli_attend_smart_boa.Http.{Error, crash, Action, pure, raise, gets, modify, ◌>>=◌, ◌>>◌}
use intelli_attend_smart_boa.Models.{Db, ActiveSession, SessionStatus}
use intelli_attend_smart_boa.Env.{Env}
use intelli_attend_smart_boa.Cache
use intelli_attend_smart_boa.Cache.{Redis, Cache}
use intelli_attend_smart_boa.Sockets.Rooms.{Rooms}

-- What a handler of sessions reads and writes: the tables, the cache, and the rooms.
pub record World (S : Type 0) : Type 0 where
  pub db : Db
  pub cache : Cache S
  pub rooms : Rooms

abbrev pub status_value : SessionStatus → String
status_value SessionStatus.pre_allocated = "pre_allocated"
status_value SessionStatus.active = "active"
status_value SessionStatus.completed = "completed"
status_value SessionStatus.ended = "ended"

abbrev pub has_id : String → ActiveSession → Bool
has_id session_id s = same s.session_id session_id

-- `OTP_CACHE_TTL`, `_otp_cache_key`
abbrev pub otp_cache_ttl : ℕ
otp_cache_ttl = 300

abbrev pub otp_cache_key : String → String
otp_cache_key otp = "otp:" ^^ otp

-- `generate_deterministic_id`
unfoldable pub generate_deterministic_id : Env → ℕ → String → String
generate_deterministic_id env now slot_id =
    slice_to 20 (env.sha256 (slot_id ^^ "_" ^^ env.date now))

-- `SessionCreateRequest`
pub record SessionCreateRequest : Type 0 where
  pub course_name : String
  pub faculty_name : String
  pub section_id : String
  pub roster_count : ℕ
  pub slot_id : Option String

abbrev pub session_id_of : Env → ℕ → (hex : String) → SessionCreateRequest → String
session_id_of env now hex q =
    let random_id = "SESS_" ^^ hex in
    elim (q.slot_id) [
      | none ↦ random_id
      | some slot ↦ if truthy slot then generate_deterministic_id env now slot else random_id
    ]

abbrev pub created_session :
    Env → ℕ → (hex half1 : String) → (room : Option String) → SessionCreateRequest → ActiveSession
created_session env now hex half1 room q = record {
  session_id = session_id_of env now hex q;
  slot_id = some (or_else q.slot_id "");
  room_id = some (or_else room "");
  status = SessionStatus.pre_allocated;
  session_secret_half1 = some half1;
  course_name = q.course_name;
  faculty_name = q.faculty_name;
  section_id = q.section_id;
  roster_count = q.roster_count;
  created_at = now;
  activated_at = none;
  ended_at = none;
}

abbrev pub cached_otp : (session_id half1 : String) → Json
cached_otp session_id half1 =
    obj ("session_id" ↪ text session_id ⨾ "session_secret_half1" ↪ text half1 ⨾ end)

abbrev pub otp_of : ℕ → String
otp_of random = str (random + 100000)

-- `bool(value)` of what `get_json` returns, as a dict; `.get` on anything else raises.
abbrev pub as_dict : Json → Option Fields
as_dict (obj fields) = some fields
as_dict _ = none

abbrev pub as_text : Json → Option String
as_text (text s) = some s
as_text _ = none

unfoldable pub falsy : Option Json → Bool
unfolding same
falsy none = true
falsy (some null) = true
falsy (some (Json.bool false)) = true
falsy (some (num zero)) = true
falsy (some (text s)) = same s ""
falsy (some (Json.arr Items.nil)) = true
falsy (some (obj end)) = true
falsy (some _) = false

-- `d.get(key)` of a dict, where a missing key and a null value both give `None`.
abbrev pub text_at : String → Fields → Option String
text_at key fields = elim (get key fields) [
  | none ↦ none
  | some v ↦ elim v [ text s ↦ some s | _ ↦ none ]
]

module _ {S : Type 0} (redis : Redis S) (env : Env) where
  -- `create_session_pg`: `session.add`, the write to the cache, and the answer's session id and OTP.
  unfoldable pub create_session :
      ℕ
      → (hex half1 : String) → ℕ
      → Option String
      → SessionCreateRequest
      → Action (World S) (String × String)
  create_session now hex half1 random room q = do
    modify (λ w.
        let db : Db = w.db in
        record w {
          db = record db {
            sessions = db.sessions ++ created_session env now hex half1 room q ∷ [];
          };
        })
    modify (λ w. record w {
      cache =
          Cache.set_json redis env (otp_cache_key (otp_of random))
            (cached_otp (session_id_of env now hex q) half1) otp_cache_ttl w.cache;
    })
    pure (session_id_of env now hex q, otp_of random)

  -- The dict of `find_session_by_otp_pg` for the row that was found; it has the key "error".
  abbrev pub found_fields : Fields → ActiveSession → Fields
  found_fields cached s =
      "session_id"
      ↪ text s.session_id ⨾ "session_secret_half1"
      ↪ text (or_else (text_at "session_secret_half1" cached) (or_else s.session_secret_half1 "")) ⨾
        "faculty_name"
      ↪ text s.faculty_name ⨾ "course_name"
      ↪ text s.course_name ⨾ "roster_count"
      ↪ num s.roster_count ⨾ "section_id"
      ↪ text s.section_id ⨾ "status"
      ↪ text (status_value s.status) ⨾ "error"
      ↪ null ⨾ end

  -- `find_session_by_otp_pg` on the cached value. The driver refuses an id that is no text.
  unfoldable pub find_cached : Option Json → Action (World S) (Option Fields)
  unfolding falsy
  find_cached none = pure none
  find_cached (some v) = if falsy (some v) then pure none else elim (as_dict v) [
    | none ↦ raise crash
    | some cached ↦ elim (get "session_id" cached) [
      | none ↦ pure none
      | some value ↦ if falsy (some value) then pure none else elim (as_text value) [
        | none ↦ raise crash
        | some id ↦ do
          row ← gets (λ w. find (has_id id) w.db.sessions)
          elim row [ none ↦ pure none | some s ↦ pure (some (found_fields cached s)) ]
      ]
    ]
  ]

  -- `find_session_by_otp_pg`
  unfoldable pub find_session_by_otp : String → Action (World S) (Option Fields)
  unfolding find_cached
  find_session_by_otp otp w =
      let (cached, cache) = Cache.get_json redis env (otp_cache_key otp) w.cache in
      find_cached cached (record w { cache = cache })

-- `ignite_session_atomic_pg`: every row of the id, whatever its status.
abbrev pub ignite : ℕ → ActiveSession → ActiveSession
ignite now s = record s { status = SessionStatus.active; activated_at = some now }

unfoldable pub ignite_session_atomic : ℕ → String → List ActiveSession → List ActiveSession
ignite_session_atomic now id sessions = modify_where (has_id id) (ignite now) sessions
