-- ===== src/MockServer/Laws.antt =====
-- The registration of a board with the mock backend, and what its store can hold.
use intelli_attend_smart_boa.Base.{
  ℕ, ◌+◌, String, Bool, true, false, some, List, [], ◌∷◌, ◌≡◌, refl, ◌∙◌, ◌&&◌, not, same,
  same_refl, arith, truthy, split, second, ◌^^◌,
}
use intelli_attend_smart_boa.Dict.{lookup, lookup-insert}
use intelli_attend_smart_boa.Json.{Fields, text, obj, end, ◌↪◌⨾◌}
use intelli_attend_smart_boa.Http.{ok}
use intelli_attend_smart_boa.Env.{Env}
use intelli_attend_smart_boa.MockServer.{
  MockStore, Otp, otp_ttl, success, board_entry, get_board_data, new_tokens, health,
  get_server_time, board_ready, get_preflight, initiate_session, record_attendance,
  terminate_session, board_heartbeat, receive_telemetry, sync_context, register_login,
  register_verify, register_complete, refresh_token, create_session, mock_state,
}
use intelli_attend_smart_boa.MockServer.Requests.{Request, Event, serve, serve_all}

-- The request registers the board or resets the store.
abbrev pub concerns : String → Request → Bool
concerns b (Request.login board password) = same board b
concerns b (Request.verify board otp) = same board b
concerns b (Request.complete board token hardware) = same board b
concerns b Request.post_reset = true
concerns b _ = false

abbrev pub none_concern : String → List Event → Bool
none_concern b [] = true
none_concern b (e ∷ es) = not (concerns b e.request) && none_concern b es

-- The two stores agree on the board's one-time password and on its verification token.
abbrev SameSteps : String → MockStore → MockStore → Type 0
SameSteps b s t =
    (lookup b t.otps ≡ lookup b s.otps)
    × (lookup b t.registration_tokens ≡ lookup b s.registration_tokens)

module _ (env : Env) (b64 : String → String) where
  serve_keeps :
      (b : String) (r : Request) (clock : ℕ → ℕ) (random : ℕ → String) (s : MockStore)
      → concerns b r ≡ false
      → SameSteps b s (serve env b64 r clock random s).1
  unfolding serve health get_server_time board_ready get_preflight initiate_session
      record_attendance terminate_session board_heartbeat receive_telemetry sync_context
      register_login register_verify register_complete refresh_token create_session mock_state
      get_board_data
  serve_keeps b Request.get_health clock random s h = (refl, refl)
  serve_keeps b Request.get_time clock random s h = (refl, refl)
  serve_keeps b Request.get_ready clock random s h = (refl, refl)
  serve_keeps b Request.post_attendance clock random s h = (refl, refl)
  serve_keeps b Request.post_terminate clock random s h = (refl, refl)
  serve_keeps b Request.post_telemetry clock random s h = (refl, refl)
  serve_keeps b Request.get_context clock random s h = (refl, refl)
  serve_keeps b Request.post_create clock random s h = (refl, refl)
  serve_keeps b Request.get_state clock random s h = (refl, refl)
  serve_keeps b Request.post_reset clock random s h = absurd (ground arith)
  serve_keeps b (Request.preflight slot) clock random s h = (refl, refl)
  serve_keeps b (Request.initiate otp) clock random s h = (refl, refl)
  serve_keeps b (Request.heartbeat screen uptime) clock random s h = (refl, refl)
  serve_keeps b (Request.login board password) clock random s h =
      let new : Otp = record { otp = "123456"; expires_at = clock 0 + otp_ttl } in
      ground (arith, lookup-insert board b new s.otps)
  serve_keeps b (Request.verify board otp) clock random s h =
      ground (arith, lookup-insert board b (random 0) s.registration_tokens)
  serve_keeps b (Request.complete board token hardware) clock random s h = ground arith
  serve_keeps b (Request.refresh body) clock random s h = ground arith

  serve_all_keeps :
      (b : String) (es : List Event) (s : MockStore)
      → none_concern b es ≡ true
      → SameSteps b s (serve_all env b64 es s)
  unfolding serve_all
  serve_all_keeps b [] s h = (refl, refl)
  serve_all_keeps b (e ∷ es) s h =
      let t : MockStore = (serve env b64 e.request e.clock e.random s).1 in
      let (otp, token) = serve_keeps b e.request e.clock e.random s (ground arith) in
      let (otp', token') = serve_all_keeps b es t (ground arith) in (otp' ∙ otp, token' ∙ token)

  login_stores :
      (now : ℕ) (b password : String) (s : MockStore)
      → lookup b (register_login now b password s).1.otps
        ≡ some (record { otp = "123456"; expires_at = now + otp_ttl })
  unfolding register_login
  login_stores now b password s =
      let new : Otp = record { otp = "123456"; expires_at = now + otp_ttl } in
      ground (arith, lookup-insert b b new s.otps, same_refl b)

  verify_stores :
      (token b : String) (d : Otp) (s : MockStore)
      → lookup b s.otps ≡ some d
      → ((register_verify token b d.otp s).0
          ≡ ok (success (obj ("verification_token" ↪ text token ⨾ end))))
        × (lookup b (register_verify token b d.otp s).1.registration_tokens ≡ some token)
  unfolding register_verify
  verify_stores token b d s h =
      ground (arith, same_refl d.otp, lookup-insert b b token s.registration_tokens, same_refl b)

  complete_stores :
      (clock : ℕ → ℕ) (random : ℕ → String) (b token hardware room : String) (s : MockStore)
      → lookup b s.registration_tokens ≡ some token
      → truthy token ≡ true
      → second (split 45 b) ≡ some room
      → let (r, t) = register_complete env b64 clock random b token hardware s in
        (lookup b t.boards
          ≡ some (
              board_entry b
                ("Room " ^^ room)
                ("hardware_id" ↪ text hardware ⨾ "firmware_version" ↪ text "v5.4" ⨾ end)))
        × ((r ≡ ok (success (obj (new_tokens env b64 clock random b))))
            × (lookup b t.tokens ≡ some (new_tokens env b64 clock random b)))
  unfolding register_complete
  complete_stores clock random b token hardware room s h t k =
      let entry : Fields =
        board_entry b ("Room " ^^ room)
          ("hardware_id" ↪ text hardware ⨾ "firmware_version" ↪ text "v5.4" ⨾ end) in
      ground (
        arith,
        same_refl token,
        lookup-insert b b entry s.boards,
        lookup-insert b b (new_tokens env b64 clock random b) s.tokens,
        same_refl b,
      )

  -- From every store, a board with a dash in its id registers in three requests: it logs in,
  -- verifies the fixed password and completes with the token that it got, if this is not empty,
  -- however many requests between them concern other boards and however late each comes. The answers
  -- carry the token and the new credentials, the store keeps these, and the board's entry has the
  -- room behind the first dash.
  pub registration_completes :
      (s : MockStore) (b password hardware token room : String) (now : ℕ) (clock : ℕ → ℕ)
      (random : ℕ → String) (es fs : List Event)
      → second (split 45 b) ≡ some room
      → truthy token ≡ true
      → none_concern b es ≡ true
      → none_concern b fs ≡ true
      → let s1 = serve_all env b64 es (register_login now b password s).1 in
        let (verified, s2) = register_verify token b "123456" s1 in
        let (completed, s3) =
          register_complete env b64 clock random b token hardware (serve_all env b64 fs s2) in
        (verified ≡ ok (success (obj ("verification_token" ↪ text token ⨾ end))))
        × ((completed ≡ ok (success (obj (new_tokens env b64 clock random b))))
            × ((lookup b s3.tokens ≡ some (new_tokens env b64 clock random b))
                × (lookup b s3.boards
                    ≡ some (
                        board_entry b ("Room " ^^ room) (
                          "hardware_id"
                          ↪ text hardware ⨾ "firmware_version"
                          ↪ text "v5.4" ⨾ end)))))
  registration_completes s b password hardware token room now clock random es fs k t h h' =
      let s0 : MockStore = (register_login now b password s).1 in
      let s1 : MockStore = serve_all env b64 es s0 in
      let new : Otp = record { otp = "123456"; expires_at = now + otp_ttl } in
      let kept : lookup b s1.otps ≡ some new =
        (serve_all_keeps b es s0 h).0 ∙ login_stores now b password s in
      let (verified, stored) = verify_stores token b new s1 kept in
      let s2 : MockStore = (register_verify token b "123456" s1).1 in
      let s3 : MockStore = serve_all env b64 fs s2 in
      let (entry, (completed, tokens)) =
        complete_stores clock random b token hardware room s3
          ((serve_all_keeps b fs s2 h').1 ∙ stored) t k in
      (verified, (completed, (tokens, entry)))
