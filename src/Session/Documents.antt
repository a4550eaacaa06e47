-- ===== src/Session/Documents.antt =====
-- The Firestore versions of backend/python/services/session_service.py, deprecated but still there,
-- and backend/python/services/active_sessions_service.py. What the Firestore client does is an
-- interface; `db` says whether a client is given. `now` is the time that `SERVER_TIMESTAMP` stands
-- for.
pub mod Laws
mod Tests
use intelli_attend_smart_boa.Base.{
  ℕ, String, Bool, true, false, Option, none, some, List, [], ◌∷◌, ◌++◌, ◌≡◌, ◌&&◌, ◌||◌, not, same,
  truthy, if◌then◌else◌, ◌^^◌, or_else,
}
use intelli_attend_smart_boa.Json.{Json, Fields, null, num, text, obj, end, field, ◌↪◌⨾◌, get, put}
use intelli_attend_smart_boa.Http.{crash, Action, pure, raise, gets, modify, raise_if, ◌>>=◌, ◌>>◌}
use intelli_attend_smart_boa.Models.{ActiveSession, SessionStatus}
use intelli_attend_smart_boa.Env.{Env}
use intelli_attend_smart_boa.Cache
use intelli_attend_smart_boa.Cache.{Redis, Cache}
use intelli_attend_smart_boa.Session.{
  SessionCreateRequest, session_id_of, cached_otp, otp_of, otp_cache_key, otp_cache_ttl, as_dict,
  falsy, as_text,
}

-- The fields of an update over those of a document.
abbrev pub merge : Fields → Fields → Fields
merge end old = old
merge (field key value rest) old = merge rest (put key value old)

-- Documents by collection and id. `update` is an error where there is no document, and changes
-- nothing but the fields that it names.
pub record Firestore (F : Type 0) : Type 0 where
  pub find : (collection id : String) → F → Option Fields
  pub set : (collection id : String) → Fields → F → F
  pub update : (collection id : String) → Fields → F → Option F
  pub find-set : (c i : String) (doc : Fields) (f : F) → find c i (set c i doc f) ≡ some doc
  pub find-set_other :
      (c i d j : String) (doc : Fields) (f : F)
      → (same c d && same i j) ≡ false
      → find d j (set c i doc f) ≡ find d j f
  pub update_none :
      (c i : String) (new : Fields) (f : F) → find c i f ≡ none → update c i new f ≡ none
  pub update_some :
      (c i : String) (new old : Fields) (f : F)
      → find c i f ≡ some old
      → update c i new f ≡ some (set c i (merge new old) f)

-- The documents and the cache.
pub record Docs (S F : Type 0) : Type 0 where
  pub cache : Cache S
  pub documents : F

-- `_redis_key` and `SESSION_TTL_SECONDS` of `ActiveSessionsService`, which nothing reads
unfoldable pub redis_key : String → String
redis_key session_id = "session_secret:" ^^ session_id

abbrev pub session_ttl_seconds : ℕ
session_ttl_seconds = 10860

-- `doc_data` of `create_session`
abbrev pub session_document : ℕ → String → SessionCreateRequest → Fields
session_document now half1 q =
    "session_secret_half1"
    ↪ text half1 ⨾ "status"
    ↪ text "pre_allocated" ⨾ "course_name"
    ↪ text q.course_name ⨾ "faculty_name"
    ↪ text q.faculty_name ⨾ "roster_count"
    ↪ num q.roster_count ⨾ "section_id"
    ↪ text q.section_id ⨾ "created_at"
    ↪ num now ⨾ end

abbrev pub session_answer : (session_id half1 otp : String) → SessionCreateRequest → Json
session_answer session_id half1 otp q = obj (
    "session_id"
    ↪ text session_id ⨾ "otp"
    ↪ text otp ⨾ "session_secret_half1"
    ↪ text half1 ⨾ "course_name"
    ↪ text q.course_name ⨾ "faculty_name"
    ↪ text q.faculty_name ⨾ "roster_count"
    ↪ num q.roster_count ⨾ "section_id"
    ↪ text q.section_id ⨾ end)

-- `d.get(key)`
abbrev pub json_or_null : Option Json → Json
json_or_null none = null
json_or_null (some v) = v

-- What `ignite_session_atomic` writes to both documents.
abbrev pub ignited : ℕ → Fields
ignited now = "status" ↪ text "active" ⨾ "activated_at" ↪ num now ⨾ end

-- `create_active_session_pg`: the row that it adds.
unfoldable pub create_active_session_pg :
    ℕ
    → (session_id half1 room_id course_name faculty_name section_id : String) → ℕ
    → List ActiveSession
    → List ActiveSession
create_active_session_pg now id half1 room course faculty section_id roster_count sessions =
    sessions
    ++ record {
      session_id = id;
      slot_id = none;
      room_id = some room;
      status = SessionStatus.pre_allocated;
      session_secret_half1 = some half1;
      course_name = course;
      faculty_name = faculty;
      section_id = section_id;
      roster_count = roster_count;
      created_at = now;
      activated_at = none;
      ended_at = none;
    }
      ∷ []

module _ {S F : Type 0} (redis : Redis S) (firestore : Firestore F) (env : Env) where
  -- `create_session`
  unfoldable pub create_session :
      (db : Bool) → ℕ → (hex half1 : String) → ℕ → SessionCreateRequest → Action (Docs S F) Json
  create_session db now hex half1 random q = do
    let id = session_id_of env now hex q
    if db
        then modify (λ d. record d {
          documents = firestore.set "Sessions" id (session_document now half1 q) d.documents;
        })
        else pure tt
    modify (λ d. record d {
      cache =
          Cache.set_json redis env (otp_cache_key (otp_of random)) (cached_otp id half1)
            otp_cache_ttl d.cache;
    })
    pure (session_answer id half1 (otp_of random) q)

  -- `cached.get(...) or data.get(...)`
  abbrev pub secret_of : Fields → Fields → Json
  secret_of cached document =
      if falsy (get "session_secret_half1" cached)
      then json_or_null (get "session_secret_half1" document)
      else json_or_null (get "session_secret_half1" cached)

  -- `find_session_by_otp` on the cached value
  unfoldable pub find_cached : (db : Bool) → Option Json → Action (Docs S F) (Option Fields)
  unfolding falsy
  find_cached db none = pure none
  find_cached db (some v) = if falsy (some v) then pure none else elim (as_dict v) [
    | none ↦ raise crash
    | some cached ↦ elim (get "session_id" cached) [
      | none ↦ pure none
      | some id ↦ if falsy (some id) || not db then pure none else elim (as_text id) [
        | none ↦ raise crash
        | some session_id ↦ do
          document ← gets (λ d. firestore.find "Sessions" session_id d.documents)
          elim document [
            | none ↦ pure none
            | some fields ↦ pure (
                some (
                  put "session_secret_half1" (secret_of cached fields)
                    (put "session_id" (text session_id) fields)))
          ]
      ]
    ]
  ]

  -- `find_session_by_otp`
  unfoldable pub find_session_by_otp : (db : Bool) → String → Action (Docs S F) (Option Fields)
  unfolding find_cached
  find_session_by_otp db otp d =
      let (cached, cache) = Cache.get_json redis env (otp_cache_key otp) d.cache in
      find_cached db cached (record d { cache = cache })

module _ {S F : Type 0} (firestore : Firestore F) where
  -- `update` of a document, which raises `NotFound` without one
  unfoldable pub update_document : (collection id : String) → Fields → Action (Docs S F) (Unit {0})
  update_document collection id new d = elim (firestore.update collection id new d.documents) [
    | none ↦ raise crash d
    | some documents ↦ pure tt (record d { documents = documents })
  ]

  -- `ignite_session_atomic`: two updates, one after the other.
  unfoldable pub ignite_session_atomic : (db : Bool) → ℕ → String → Action (Docs S F) (Unit {0})
  unfolding update_document
  ignite_session_atomic db now id = if not db then pure tt else (do
    update_document "Sessions" id (ignited now)
    update_document "ActiveSessions" id (ignited now))

  -- `create_active_session`
  unfoldable pub create_active_session :
      (db : Bool) → ℕ → (session_id half1 : String) → Action (Docs S F) (Unit {0})
  create_active_session db now id half1 =
      if not db
      then pure tt
      else modify (λ d. record d {
        documents =
            firestore.set "ActiveSessions" id
              ("session_secret_half1"
                ↪ text half1 ⨾ "status"
                ↪ text "pending" ⨾ "created_at"
                ↪ num now ⨾ end)
              d.documents;
      })
