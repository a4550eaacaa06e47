-- ===== src/Session/Lifecycle.antt =====
-- The life of sessions: the requests that change them as a step relation on the state of the
-- routes, and what holds in every state that can be reached.
mod States
unfoldable pub use States.*
use intelli_attend_smart_boa.Base.{
  ℕ, ◌≤◌, String, ◌≡◌, refl, Bool, false, none, some, List, [], ◌∷◌, ◌++◌, arith, same_iff, find,
  truthy, modify_first, count_where, count_where-append, count_where-find-none,
  count_where-modify_first, Option-cases, Bool-cases, inl, inr,
}
use intelli_attend_smart_boa.Json.{Json}
use intelli_attend_smart_boa.Models.{ActiveSession, SessionStatus}
use intelli_attend_smart_boa.Env.{Env}
use intelli_attend_smart_boa.Cache.{Redis}
use intelli_attend_smart_boa.Security.{BoardData}
use intelli_attend_smart_boa.Session.{
  World, has_id, SessionCreateRequest, created_session, create_session, generate_deterministic_id,
}
use intelli_attend_smart_boa.Session.Initiate.{initiate_session_refused}
use intelli_attend_smart_boa.Session.Monitor.{is_active}
use intelli_attend_smart_boa.Session.Routes.{
  in_session, SessionInitiateRequest, initiate_session, get_preflight, terminate_session,
  end_session, create_session_endpoint, is_unique_id, invalidate,
}

module _ {S : Type 0} (redis : Redis S) (env : Env) (delivers : ℕ → Json → Bool) where
  -- One request to a route of sessions, from a state to the next.
  pub data Step (v w : World S) : Type 0 where
    initiates :
        (now : ℕ) (board : BoardData) (q : SessionInitiateRequest)
        → w ≡ (initiate_session redis env now board q v).1
        → Step v w
    prepares :
        (now later : ℕ) (half1 slot_id : String) (board : BoardData)
        → w ≡ (get_preflight redis env now later half1 slot_id board v).1
        → Step v w
    terminates :
        (now : ℕ) (id : String) → w ≡ (terminate_session redis env delivers now id v).1 → Step v w
    creates :
        (now : ℕ) (hex half1 : String) (random : ℕ) (q : SessionCreateRequest)
        → w ≡ (create_session_endpoint redis env now hex half1 random q v).1
        → Step v w

  -- Any number of requests, in any order.
  pub data Reaches (u : World S) : World S → Type 0 where
    here : Reaches u u
    next : {v w : World S} → Reaches u v → Step v w → Reaches u w

  append-HasUniqueIds :
      (s : ActiveSession) (sessions : List ActiveSession)
      → find (has_id s.session_id) sessions ≡ none
      → HasUniqueIds sessions
      → HasUniqueIds (sessions ++ s ∷ [])
  append-HasUniqueIds s sessions absent h k = ground (
    arith,
    h k,
    same_iff s.session_id k,
    count_where-find-none (has_id s.session_id) sessions absent,
    count_where-append (has_id k) sessions (s ∷ []),
  )

  add_fresh :
      (s : ActiveSession) (sessions : List ActiveSession)
      → count_where (has_id s.session_id) (sessions ++ s ∷ []) ≡ 1
      → HasUniqueIds sessions
      → HasUniqueIds (sessions ++ s ∷ [])
  add_fresh s sessions once h k =
      ground (arith, h k, same_iff s.session_id k, count_where-append (has_id k) sessions (s ∷ []))

  append-IsIdle :
      (s : ActiveSession) (sessions : List ActiveSession)
      → runs s ≡ false
      → IsIdle sessions
      → IsIdle (sessions ++ s ∷ [])
  append-IsIdle s sessions idle h = ground (arith, count_where-append runs sessions (s ∷ []))

  end-IsIdle :
      (id : String) (now : ℕ) (sessions : List ActiveSession)
      → IsIdle sessions
      → IsIdle (modify_first (has_id id) (end_session now) sessions)
  end-IsIdle id now [] h = refl
  end-IsIdle id now (s ∷ sessions) h = ground (arith, end-IsIdle id now sessions)

  -- The sessions after a preflight: unchanged, or with a new pre-allocated row under a new id.
  preflight_sessions :
      (now later : ℕ) (half1 slot_id : String) (board : BoardData) (w : World S)
      → HasUniqueIds w.db.sessions
      → IsIdle w.db.sessions
      → let after = (get_preflight redis env now later half1 slot_id board w).1.db.sessions in
        HasUniqueIds after × IsIdle after
  unfolding get_preflight in_session invalidate
  preflight_sessions now later half1 slot_id board w unique idle =
      let id = generate_deterministic_id env now slot_id in
      let new = prepared now half1 slot_id id board in
      elim (Option-cases (find (has_id id) w.db.sessions)) [
        | inl absent ↦
            let e : (get_preflight redis env now later half1 slot_id board w).1.db.sessions
                ≡ w.db.sessions ++ new ∷ [] =
              ground arith in
            rw e (
              append-HasUniqueIds new w.db.sessions absent unique,
              append-IsIdle new w.db.sessions refl idle,
            )
        | inr (s, found) ↦
            let e : (get_preflight redis env now later half1 slot_id board w).1.db.sessions
                ≡ w.db.sessions =
              ground arith in
            rw e (unique, idle)
      ]

  terminate_sessions :
      (now : ℕ) (id : String) (w : World S)
      → HasUniqueIds w.db.sessions
      → IsIdle w.db.sessions
      → let after = (terminate_session redis env delivers now id w).1.db.sessions in
        HasUniqueIds after × IsIdle after
  unfolding terminate_session in_session invalidate
  terminate_sessions now id w unique idle =
      let ended = modify_first (has_id id) (end_session now) w.db.sessions in
      let ended_unique : HasUniqueIds ended = λ k. ground (
        arith,
        unique k,
        count_where-modify_first (has_id k) (has_id id) (end_session now) w.db.sessions (λ x. refl),
      ) in
      elim (Bool-cases (truthy id)) [
        | inl named ↦ elim (Option-cases (find (has_id id) w.db.sessions)) [
          | inl absent ↦
              let e : (terminate_session redis env delivers now id w).1.db.sessions
                  ≡ w.db.sessions =
                ground arith in
              rw e (unique, idle)
          | inr (s, found) ↦
              let e : (terminate_session redis env delivers now id w).1.db.sessions ≡ ended =
                ground arith in
              rw e (ended_unique, end-IsIdle id now w.db.sessions idle)
        ]
        | inr unnamed ↦
            let e : (terminate_session redis env delivers now id w).1.db.sessions ≡ w.db.sessions =
              ground arith in
            rw e (unique, idle)
      ]

  create_sessions :
      (now : ℕ) (hex half1 : String) (random : ℕ) (q : SessionCreateRequest) (w : World S)
      → HasUniqueIds w.db.sessions
      → IsIdle w.db.sessions
      → let after = (create_session_endpoint redis env now hex half1 random q w).1.db.sessions in
        HasUniqueIds after × IsIdle after
  unfolding create_session_endpoint in_session create_session
  create_sessions now hex half1 random q w unique idle =
      let new = created_session env now hex half1 none q in
      let all = w.db.sessions ++ new ∷ [] in
      elim (Bool-cases (is_unique_id redis env new.session_id all)) [
        | inl fresh ↦
            let e : (create_session_endpoint redis env now hex half1 random q w).1.db.sessions
                ≡ all =
              ground arith in
            rw e (
              add_fresh new w.db.sessions (ground arith) unique,
              append-IsIdle new w.db.sessions refl idle,
            )
        | inr taken ↦
            let e : (create_session_endpoint redis env now hex half1 random q w).1.db.sessions
                ≡ w.db.sessions =
              ground arith in
            rw e (unique, idle)
      ]

  Step-sessions :
      (v w : World S)
      → Step v w
      → HasUniqueIds v.db.sessions
      → IsIdle v.db.sessions
      → HasUniqueIds w.db.sessions × IsIdle w.db.sessions
  Step-sessions v w (initiates now board q e) unique idle =
      let (_, _, kept, _, _) = initiate_session_refused redis env now board q v in
      rw (e, kept) (unique, idle)
  Step-sessions v w (prepares now later half1 slot_id board e) unique idle =
      rw e (preflight_sessions now later half1 slot_id board v unique idle)
  Step-sessions v w (terminates now id e) unique idle =
      rw e (terminate_sessions now id v unique idle)
  Step-sessions v w (creates now hex half1 random q e) unique idle =
      rw e (create_sessions now hex half1 random q v unique idle)

  -- From tables in which session ids are unique and no session is active, whatever requests to
  -- initiate, prepare, terminate and create sessions arrive, in any order and number, session ids
  -- stay unique; and no session ever becomes active.
  pub reached_sessions :
      (u w : World S)
      → Reaches u w
      → HasUniqueIds u.db.sessions
      → IsIdle u.db.sessions
      → HasUniqueIds w.db.sessions × IsIdle w.db.sessions
  reached_sessions u w here unique idle = (unique, idle)
  reached_sessions u w (next {v} path step) unique idle =
      let (unique', idle') = reached_sessions u v path unique idle in
      Step-sessions v w step unique' idle'
