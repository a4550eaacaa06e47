-- ===== src/Session/Routes.antt =====
-- The handlers of sessions in backend/python/main.py, behind their dependencies: initiate,
-- preflight, terminate and create. `board` is what `get_current_board_pg` returned.
use Prim.Native.String.{count}
use intelli_attend_smart_boa.Base.{
  ℕ, ◌/◌, String, Bool, not, Option, none, some, List, [], ◌∷◌, ◌++◌, ◌==◌, truthy, find,
  modify_first, count_where, ends_with, without, or_else, if◌then◌else◌, ◌^^◌,
}
use intelli_attend_smart_boa.Json.{Json, Fields, null, num, text, obj, end, ◌↪◌⨾◌, get}
use intelli_attend_smart_boa.Http.{
  http, crash, ok, err, Action, pure, raise, gets, raise_if, modify, ◌>>=◌, ◌>>◌,
}
use intelli_attend_smart_boa.Models.{Db, ActiveSession, SessionStatus}
use intelli_attend_smart_boa.Env.{Env}
use intelli_attend_smart_boa.Cache
use intelli_attend_smart_boa.Cache.{Redis}
use intelli_attend_smart_boa.Security.{BoardData}
use intelli_attend_smart_boa.Sockets.Rooms.{broadcast}
use intelli_attend_smart_boa.Session.{
  World, has_id, otp_cache_key, generate_deterministic_id, SessionCreateRequest, create_session,
  find_session_by_otp, ignite_session_atomic,
}

-- `get_db` around a handler: it takes back the changes of the database only.
unfoldable pub in_session : {S A : Type 0} → Action (World S) A → Action (World S) A
in_session handler w =
    let (r, v) = handler w in elim r [ ok a ↦ (ok a, v) | err e ↦ (err e, record v { db = w.db }) ]

-- `SessionInitiateRequest`: an OTP of six characters, which pydantic checks
pub record SessionInitiateRequest : Type 0 where
  pub otp : String

abbrev pub offline_suffix : String
offline_suffix = "_offline_generated"

-- The removal of the marker of an offline OTP.
unfoldable pub plain_otp : String → String
unfolding ends_with without
plain_otp otp = if ends_with otp offline_suffix then without offline_suffix otp else otp

-- `HTTPException(400, detail=session["error"])`: without a detail the status phrase is sent.
abbrev pub error_detail : Json → String
error_detail (text d) = d
error_detail _ = "Bad Request"

abbrev pub or_null : Option Json → Json
or_null none = null
or_null (some v) = v

abbrev pub end_session : ℕ → ActiveSession → ActiveSession
end_session now s = record s { status = SessionStatus.ended; ended_at = some now }

abbrev pub ended_message : (issued session_id : String) → Json
ended_message issued id = obj (
    "type"
    ↪ text "session_ended" ⨾ "session_id"
    ↪ text id ⨾ "status"
    ↪ text "ended" ⨾ "timestamp"
    ↪ text issued ⨾ end)

module _ {S : Type 0} (redis : Redis S) (env : Env) where
  -- `BoardHydrationService.invalidate`
  unfoldable pub invalidate : String → Action (World S) (Unit {0})
  invalidate room w =
      modify (λ w. record w { cache = Cache.delete redis ("hydrate:board:" ^^ room) w.cache }) w

  abbrev pub invalidate_room : Option String → Action (World S) (Unit {0})
  invalidate_room none = pure tt
  invalidate_room (some room) = if truthy room then invalidate room else pure tt

  -- The rest of `_initiate_session_logic_pg`, once the session is found without an error.
  unfoldable pub ignite_found :
      ℕ → (otp : String) → BoardData → Fields → (session_id : String) → Action (World S) Json
  unfolding invalidate ignite_session_atomic
  ignite_found now otp board fields id = do
    modify (λ w.
        let db : Db = w.db in
        record w { db = record db { sessions = ignite_session_atomic now id db.sessions } })
    modify (λ w. record w { cache = Cache.delete redis (otp_cache_key otp) w.cache })
    invalidate_room board.room_id
    pure (
        obj (
          "status"
          ↪ text "success" ⨾ "data"
          ↪ obj (
              "session_id"
              ↪ text id ⨾ "session_secret_half1"
              ↪ or_null (get "session_secret_half1" fields) ⨾ "faculty_name"
              ↪ or_null (get "faculty_name" fields) ⨾ "course_name"
              ↪ or_null (get "course_name" fields) ⨾ "roster_count"
              ↪ or_null (get "roster_count" fields) ⨾ "section_id"
              ↪ or_null (get "section_id" fields) ⨾ end) ⨾
            end))

  -- `_initiate_session_logic_pg`
  unfoldable pub initiate_session_logic : ℕ → (otp : String) → BoardData → Action (World S) Json
  unfolding find_session_by_otp ignite_found plain_otp
  initiate_session_logic now requested board = do
    let otp = plain_otp requested
    found ← find_session_by_otp redis env otp
    elim found [
      | none ↦ raise (http 404 "Session not found or OTP invalid")
      | some fields ↦ elim (get "error" fields) [
        | some e ↦ raise (http 400 (error_detail e))
        | none ↦ elim (get "session_id" fields) [
          | some (text id) ↦ ignite_found now otp board fields id
          | _ ↦ raise crash
        ]
      ]
    ]

  -- POST /session/initiate
  unfoldable pub initiate_session : ℕ → BoardData → SessionInitiateRequest → Action (World S) Json
  unfolding initiate_session_logic
  initiate_session now board q = in_session (do
    raise_if (not (count q.otp == 6)) (http 422 "otp")
    initiate_session_logic now q.otp board)

  -- `verify_otp_v2`: POST /api/v1/board/verify-otp
  unfoldable pub verify_otp : ℕ → BoardData → SessionInitiateRequest → Action (World S) Json
  unfolding initiate_session_logic
  verify_otp now board q = in_session (do
    raise_if (not (count q.otp == 6)) (http 422 "otp")
    initiate_session_logic now q.otp board)

  -- `get_preflight`, without its log lines and the Cache-Control header. `half1` is the draw for a
  -- new session.
  unfoldable pub get_preflight :
      (now later : ℕ) → (half1 slot_id : String) → BoardData → Action (World S) Json
  unfolding invalidate
  get_preflight now later half1 slot_id board = in_session (do
    let id = generate_deterministic_id env now slot_id
    existing ← gets (λ w. find (has_id id) w.db.sessions)
    elim existing [
      | none ↦ do
        modify (λ w.
            let db : Db = w.db in
            record w {
              db = record db {
                sessions =
                    db.sessions
                    ++ record {
                      session_id = id;
                      slot_id = some slot_id;
                      room_id = board.room_id;
                      status = SessionStatus.pre_allocated;
                      session_secret_half1 = some half1;
                      course_name = "";
                      faculty_name = "";
                      section_id = "";
                      roster_count = 0;
                      created_at = now;
                      activated_at = none;
                      ended_at = none;
                    }
                      ∷ [];
              };
            })
        invalidate_room board.room_id
      | some s ↦ pure tt
    ]
    pure (
        obj (
          "status"
          ↪ text "ready" ⨾ "server_timestamp"
          ↪ num (later / 1000) ⨾ "pre_allocated_session_id"
          ↪ text id ⨾ "session_secret_half1"
          ↪ text (elim existing [ none ↦ half1 | some s ↦ or_else s.session_secret_half1 "" ]) ⨾
            "slot_verification"
          ↪ obj (
              "subject_name"
              ↪ text (elim existing [ none ↦ "" | some s ↦ s.course_name ]) ⨾ "faculty_name"
              ↪ text (elim existing [ none ↦ "" | some s ↦ s.faculty_name ]) ⨾ end) ⨾
            end)))

  -- `terminate_session`, for the body's session id (`""` if it has none)
  unfoldable pub terminate_session :
      (delivers : ℕ → Json → Bool) → ℕ → (session_id : String) → Action (World S) Json
  unfolding invalidate broadcast
  terminate_session delivers now id = in_session (do
    if truthy id
        then (do
          found ← gets (λ w. find (has_id id) w.db.sessions)
          elim found [
            | none ↦ pure tt
            | some s ↦ do
              modify (λ w.
                  let db : Db = w.db in
                  record w {
                    db = record db {
                      sessions = modify_first (has_id id) (end_session now) db.sessions;
                    };
                  })
              invalidate_room s.room_id
          ]
          modify (λ w. record w {
            rooms = broadcast delivers (ended_message (env.isoformat now) id) id w.rooms;
          }))
        else pure tt
    pure (obj ("status" ↪ text "success" ⨾ end)))

  -- No two rows of one session id: the unique constraint that the commit checks.
  abbrev pub is_unique_id : String → List ActiveSession → Bool
  is_unique_id id sessions = count_where (has_id id) sessions == 1

  -- `create_session_endpoint` behind its role check; the commit raises where the id is taken.
  unfoldable pub create_session_endpoint :
      ℕ → (hex half1 : String) → ℕ → SessionCreateRequest → Action (World S) Json
  unfolding create_session
  create_session_endpoint now hex half1 random q = in_session (do
    created ← create_session redis env now hex half1 random none q
    sessions ← gets (λ w. w.db.sessions)
    raise_if (not (is_unique_id created.0 sessions)) crash
    pure (
        obj (
          "status"
          ↪ text "success" ⨾ "session_id"
          ↪ text created.0 ⨾ "data"
          ↪ obj ("session_id" ↪ text created.0 ⨾ "otp" ↪ text created.1 ⨾ end) ⨾ end)))
