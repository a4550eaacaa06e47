-- ===== src/Session/Initiate.antt =====
-- What POST /session/initiate answers.
use Prim.Native.String.{count}
use intelli_attend_smart_boa.Base.{
  ℕ, String, ◌≡◌, refl, ◌⊎◌, true, Option, none, some, arith, same, find, Option-cases, Bool-cases,
  inl, inr, ◌==◌,
}
use intelli_attend_smart_boa.Json.{Json, Fields, null, get}
use intelli_attend_smart_boa.Http.{Error, http, crash, Result, ok, err}
use intelli_attend_smart_boa.Models.{ActiveSession}
use intelli_attend_smart_boa.Env.{Env}
use intelli_attend_smart_boa.Cache
use intelli_attend_smart_boa.Cache.{Redis}
use intelli_attend_smart_boa.Security.{BoardData}
use intelli_attend_smart_boa.Session.{
  World, has_id, otp_cache_key, as_dict, as_text, falsy, found_fields, find_cached,
  find_session_by_otp,
}
use intelli_attend_smart_boa.Session.Routes.{
  in_session, SessionInitiateRequest, plain_otp, initiate_session_logic, initiate_session,
}

module _ {S : Type 0} (redis : Redis S) (env : Env) where
  found_error :
      (cached : Fields) (s : ActiveSession)
      → get "error" (found_fields redis env cached s) ≡ some null
  unfolding same
  found_error cached s = refl

  -- How a lookup ends: it raises, finds nothing, or finds a dict with a null error.
  abbrev Looked : Result (Option Fields) → Type 0
  Looked r =
      ((e : Error) × (r ≡ err e) × (e ≡ crash))
      ⊎ ((r ≡ ok none) ⊎ ((f : Fields) × (r ≡ ok (some f)) × (get "error" f ≡ some null)))

  find_cached-Looked : (v : Option Json) (w : World S) → Looked (find_cached redis env v w).0
  unfolding find_cached
  find_cached-Looked none w = inr (inl refl)
  find_cached-Looked (some v) w = elim (Bool-cases (falsy (some v))) [
    | inl e ↦ inr (inl (ground arith))
    | inr e ↦ elim (Option-cases (as_dict v)) [
      | inl d ↦ inl (crash, ground arith, refl)
      | inr (cached, d) ↦ elim (Option-cases (get "session_id" cached)) [
        | inl g ↦ inr (inl (ground arith))
        | inr (value, g) ↦ elim (Bool-cases (falsy (some value))) [
          | inl t ↦ inr (inl (ground arith))
          | inr t ↦ elim (Option-cases (as_text value)) [
            | inl i ↦ inl (crash, ground arith, refl)
            | inr (id, i) ↦ elim (Option-cases (find (has_id id) w.db.sessions)) [
              | inl f ↦ inr (inl (ground arith))
              | inr (s, f) ↦
                  inr (inr (found_fields redis env cached s, ground arith, found_error cached s))
            ]
          ]
        ]
      ]
    ]
  ]

  find_cached-world : (v : Option Json) (w : World S) → (find_cached redis env v w).1 ≡ w
  unfolding find_cached
  find_cached-world none w = refl
  find_cached-world (some v) w = ground arith

  -- The lookup by OTP is read-only on the database and the rooms.
  find_session_by_otp_fixed :
      (otp : String) (w : World S)
      → let w' = (find_session_by_otp redis env otp w).1 in (w'.db ≡ w.db) × (w'.rooms ≡ w.rooms)
  unfolding find_session_by_otp
  find_session_by_otp_fixed otp w =
      let (cached, cache) = Cache.get_json redis env (otp_cache_key otp) w.cache in
      let same_world = find_cached-world cached (record w { cache = cache }) in
      (rw same_world, rw same_world)

  find_session_by_otp-Looked :
      (otp : String) (w : World S) → Looked (find_session_by_otp redis env otp w).0
  unfolding find_session_by_otp
  find_session_by_otp-Looked otp w =
      let (cached, cache) = Cache.get_json redis env (otp_cache_key otp) w.cache in
      find_cached-Looked cached (record w { cache = cache })

  logic_refuses :
      (now : ℕ) (otp : String) (board : BoardData) (w : World S)
      → (e : Error) × (initiate_session_logic redis env now otp board w
          ≡ (err e, (find_session_by_otp redis env (plain_otp otp) w).1))
        × ((f : Fields)
            → (find_session_by_otp redis env (plain_otp otp) w).0 ≡ ok (some f)
            → e ≡ http 400 "Bad Request")
  unfolding initiate_session_logic
  logic_refuses now otp board w = elim (find_session_by_otp-Looked (plain_otp otp) w) [
    | inl (e, raised, is_crash) ↦ (e, ground arith, λ f h. absurd (ground arith))
    | inr (inl missing) ↦
        (http 404 "Session not found or OTP invalid", ground arith, λ f h. absurd (ground arith))
    | inr (inr (g, found, null_error)) ↦ (http 400 "Bad Request", ground arith, λ f h. refl)
  ]

  -- No session can be initiated. Whatever the OTP, the board, the cache and the tables hold, the
  -- route answers with an error, and leaves the database and the rooms as they were; and an OTP of
  -- six characters under which a session is found is answered with 400 "Bad Request", since the
  -- dict of a session that was found always has the key "error".
  pub initiate_session_refused :
      (now : ℕ) (board : BoardData) (q : SessionInitiateRequest) (w : World S)
      → let (r, w') = initiate_session redis env now board q w in
        (e : Error) × (r ≡ err e)
        × (w'.db ≡ w.db)
        × (w'.rooms ≡ w.rooms)
        × ((f : Fields)
            → (count q.otp == 6) ≡ true
            → (find_session_by_otp redis env (plain_otp q.otp) w).0 ≡ ok (some f)
            → e ≡ http 400 "Bad Request")
  unfolding initiate_session in_session
  initiate_session_refused now board q w =
      let (e, refused, bad) = logic_refuses now q.otp board w in
      let (same_db, same_rooms) = find_session_by_otp_fixed (plain_otp q.otp) w in
      elim (Bool-cases (count q.otp == 6)) [
        | inl six ↦ (
          e,
          ground (arith, refused),
          ground (arith, refused),
          ground (arith, refused, same_rooms),
          (λ f s found. bad f found),
        )
        | inr other ↦ (
          http 422 "otp",
          ground arith,
          ground arith,
          ground arith,
          (λ f s found. absurd (ground arith)),
        )
      ]
