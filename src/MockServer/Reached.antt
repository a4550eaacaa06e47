-- ===== src/MockServer/Reached.antt =====
-- What the store of the mock backend can hold after any requests.
use intelli_attend_smart_boa.Base.{
  ℕ, String, Bool, true, false, none, some, List, [], ◌∷◌, ◌≡◌, refl, ◌&&◌, ◌||◌, not, same,
  same_iff, arith, inl, inr, split, second, ◌^^◌, Option-cases,
}
use intelli_attend_smart_boa.Dict.{Dict, lookup, lookup-insert}
use intelli_attend_smart_boa.Json.{Fields, text, end, ◌↪◌⨾◌}
use intelli_attend_smart_boa.Env.{Env}
use intelli_attend_smart_boa.MockServer.{
  MockStore, board_entry, get_board_data, new_tokens, seed_defaults, startup, health,
  get_server_time, board_ready, get_preflight, initiate_session, record_attendance,
  terminate_session, board_heartbeat, receive_telemetry, sync_context, register_login,
  register_verify, register_complete, refresh_token, create_session, mock_state, mock_reset,
}
use intelli_attend_smart_boa.MockServer.Requests.{Request, Event, serve, serve_all}

-- `key in d`
abbrev pub holds : {V : Type 0} → String → Dict V → Bool
holds k d = elim (lookup k d) [ none ↦ false | some v ↦ true ]

-- Of one board: an entry comes with credentials, and these with a verification, except the board
-- that the store is seeded with.
abbrev pub registered : String → MockStore → Bool
registered b s =
    (not (holds b s.boards) || holds b s.tokens)
    && (not (holds b s.tokens) || (same "IASB-4208" b || holds b s.registration_tokens))

abbrev IsSound : String → MockStore → Type 0
IsSound b s = (s.sessions ≡ []) × ((s.heartbeats ≡ []) × (registered b s ≡ true))

module _ (env : Env) (b64 : String → String) (b : String) where
  seed-IsSound : (clock : ℕ → ℕ) (random : ℕ → String) → IsSound b (startup env b64 clock random)
  unfolding startup seed_defaults
  seed-IsSound clock random = (refl, (refl, ground arith))

  verify-IsSound :
      (token board otp : String) (s : MockStore)
      → IsSound b s
      → IsSound b (register_verify token board otp s).1
  unfolding register_verify
  verify-IsSound token board otp s (e, (f, h)) =
      ground (arith, lookup-insert board b token s.registration_tokens)

  complete-IsSound :
      (clock : ℕ → ℕ) (random : ℕ → String) (board token hardware : String) (s : MockStore)
      → IsSound b s
      → IsSound b (register_complete env b64 clock random board token hardware s).1
  unfolding register_complete
  complete-IsSound clock random board token hardware s (e, (f, h)) =
      let tokens : Fields = new_tokens env b64 clock random board in
      elim (Option-cases (lookup board s.registration_tokens)) [
        | inl g ↦ ground (arith, e, f, h)
        | inr (stored, g) ↦ elim (Option-cases (second (split 45 board))) [
          | inl k ↦ ground (arith, e, f, h, lookup-insert board b tokens s.tokens, same_iff board b)
          | inr (room, k) ↦
              let entry : Fields =
                board_entry board ("Room " ^^ room)
                  ("hardware_id" ↪ text hardware ⨾ "firmware_version" ↪ text "v5.4" ⨾ end) in
              ground (
                arith,
                e,
                f,
                h,
                lookup-insert board b tokens s.tokens,
                lookup-insert board b entry s.boards,
                same_iff board b,
              )
        ]
      ]

  serve-IsSound :
      (r : Request) (clock : ℕ → ℕ) (random : ℕ → String) (s : MockStore)
      → IsSound b s
      → IsSound b (serve env b64 r clock random s).1
  unfolding serve health get_server_time board_ready get_preflight initiate_session
      record_attendance terminate_session board_heartbeat receive_telemetry sync_context
      register_login refresh_token create_session mock_state get_board_data mock_reset startup
  serve-IsSound Request.get_health clock random s h = h
  serve-IsSound Request.get_time clock random s h = h
  serve-IsSound Request.get_ready clock random s h = h
  serve-IsSound Request.post_attendance clock random s h = h
  serve-IsSound Request.post_terminate clock random s h = h
  serve-IsSound Request.post_telemetry clock random s h = h
  serve-IsSound Request.get_context clock random s h = h
  serve-IsSound Request.post_create clock random s h = h
  serve-IsSound Request.get_state clock random s h = h
  serve-IsSound Request.post_reset clock random s h = seed-IsSound clock random
  serve-IsSound (Request.preflight slot) clock random s h = h
  serve-IsSound (Request.initiate otp) clock random s h = h
  serve-IsSound (Request.heartbeat screen uptime) clock random s h = h
  serve-IsSound (Request.login board password) clock random s h = h
  serve-IsSound (Request.verify board otp) clock random s h =
      verify-IsSound (random 0) board otp s h
  serve-IsSound (Request.complete board token hardware) clock random s h =
      complete-IsSound clock random board token hardware s h
  serve-IsSound (Request.refresh body) clock random s h = ground arith

  serve_all-IsSound :
      (es : List Event) (s : MockStore) → IsSound b s → IsSound b (serve_all env b64 es s)
  unfolding serve_all
  serve_all-IsSound [] s h = h
  serve_all-IsSound (e ∷ es) s h =
      serve_all-IsSound es (serve env b64 e.request e.clock e.random s).1
        (serve-IsSound e.request e.clock e.random s h)

  -- After any requests to the seeded mock backend, in any order and with failures among them: it has
  -- stored no session and no heartbeat, since these handlers raise before they store; and a board
  -- with an entry has credentials, and with credentials, unless it is the seeded one, a verification
  -- token.
  pub reached_store :
      (clock : ℕ → ℕ) (random : ℕ → String) (es : List Event)
      → let s = serve_all env b64 es (startup env b64 clock random) in
        (s.sessions ≡ []) × ((s.heartbeats ≡ []) × (registered b s ≡ true))
  reached_store clock random es =
      serve_all-IsSound es (startup env b64 clock random) (seed-IsSound clock random)
