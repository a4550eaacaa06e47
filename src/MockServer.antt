-- ===== src/MockServer.antt =====
-- The mock backend of scripts/mock_server.py. A handler acts on the store in memory, which keeps
-- what was written before an exception. `mock` is its base64 encoding, a library's.
mod Store
mod Answers
pub mod Requests
pub mod Laws
pub mod Reached
mod Tests
unfoldable pub use Store.*
unfoldable pub use Answers.*
use intelli_attend_smart_boa.Base.{
  ℕ, ◌+◌, ◌/◌, ◌*◌, String, Bool, true, false, Option, none, some, List, [], ◌∷◌, ◌^^◌, ◌||◌, not,
  same, truthy, split, second, starts_with, if◌then◌else◌,
}
use intelli_attend_smart_boa.Dict.{Dict, lookup, insert, get_or}
use intelli_attend_smart_boa.Json.{
  Json, Fields, Items, nil, cons, bool, num, text, obj, arr, end, ◌↪◌⨾◌, get,
}
use intelli_attend_smart_boa.Http.{
  Error, http, crash, Action, pure, raise, gets, raise_if, modify, or_raise, ◌>>=◌, ◌>>◌,
}
use intelli_attend_smart_boa.Env.{Env}

-- `board.get("classroom_id", "room_4208") if board else "room_4208"`
abbrev pub room_of : Option Fields → Json
room_of none = text "room_4208"
room_of (some board) = elim (get "classroom_id" board) [
  | none ↦ text "room_4208"
  | some room ↦ room
]

-- The dict of `get_board_data`
pub record BoardData : Type 0 where
  pub device_id : String
  pub room_id : Json
  pub is_authenticated : Bool

-- `get_board_data`, on the headers of a request or on `None`, which has no `headers`. The entries
-- of the store are never empty dicts.
unfoldable pub get_board_data : Option (Dict String) → Action MockStore BoardData
get_board_data none s = raise crash s
get_board_data (some headers) s =
    let device_id = get_or "X-Device-ID" "IASB-4208" headers in
    let board : Option Fields = elim (lookup device_id s.boards) [
      | none ↦ lookup "IASB-4208" s.boards
      | some entry ↦ some entry
    ] in
    pure
      (record {
        device_id = device_id;
        room_id = room_of board;
        is_authenticated =
            truthy (get_or "Authorization" "" headers) || truthy (get_or "X-API-Key" "" headers);
      })
      s

-- `body.get("refresh_token", "")`, for a text; `none` where the code behind it raises
abbrev pub refresh_of : Json → Option String
refresh_of (obj fields) = elim (get "refresh_token" fields) [
  | none ↦ some ""
  | some (text token) ↦ some token
  | some _ ↦ none
]
refresh_of _ = none

-- `get_preflight`: the dependency is called with `None`. `secret` is the encoded random value.
unfoldable pub get_preflight : ℕ → String → (slot_id : String) → Action MockStore Json
unfolding get_board_data
get_preflight now secret slot_id = do
  board_data ← get_board_data none
  pure (
      obj (
        "status"
        ↪ text "ready" ⨾ "server_timestamp"
        ↪ num (now / 1000) ⨾ "pre_allocated_session_id"
        ↪ text ("sess_" ^^ slot_id) ⨾ "session_secret_half1"
        ↪ text secret ⨾ "slot_verification"
        ↪ obj
            ("subject_name" ↪ text "Mock Subject" ⨾ "faculty_name" ↪ text "Mock Professor" ⨾ end) ⨾
          end))

-- `initiate_session`
unfoldable pub initiate_session : (ℕ → String) → (otp : String) → Action MockStore Json
unfolding get_board_data
initiate_session random otp = do
  board_data ← get_board_data none
  let session_id = "sess_" ^^ random 0
  modify (λ s. record s {
    sessions =
        insert session_id
          ("session_id"
            ↪ text session_id ⨾ "session_secret"
            ↪ text (random 1) ⨾ "status"
            ↪ text "active" ⨾ end)
          s.sessions;
  })
  pure (
      success (
        obj (
          "session_id"
          ↪ text session_id ⨾ "session_secret"
          ↪ text (random 1) ⨾ "faculty_name"
          ↪ text "Mock Professor" ⨾ "course_name"
          ↪ text "Mock Course" ⨾ "roster_count"
          ↪ num 60 ⨾ end)))

-- `board_heartbeat`
unfoldable pub board_heartbeat : ℕ → (screen_state : String) → ℕ → Action MockStore Json
unfolding get_board_data
board_heartbeat now screen_state uptime_seconds = do
  board_data ← get_board_data none
  modify (λ s. record s {
    heartbeats =
        insert board_data.device_id
          ("last_seen"
            ↪ num now ⨾ "screen_state"
            ↪ text screen_state ⨾ "uptime_seconds"
            ↪ num uptime_seconds ⨾ end)
          s.heartbeats;
  })
  pure (obj ("status" ↪ text "ok" ⨾ "device_id" ↪ text board_data.device_id ⨾ end))

-- `sync_context`
unfoldable pub sync_context : Action MockStore Json
unfolding get_board_data
sync_context = do
  board_data ← get_board_data none
  pure (
      success (
        obj (
          "device_id"
          ↪ text board_data.device_id ⨾ "room_id"
          ↪ board_data.room_id ⨾ "is_authenticated"
          ↪ bool board_data.is_authenticated ⨾ end)))

-- `initiate_device_registration`; the password is not looked at.
unfoldable pub register_login : ℕ → (smart_board_id password : String) → Action MockStore Json
register_login now board password = do
  modify (λ s. record s {
    otps = insert board (record { otp = "123456"; expires_at = now + otp_ttl }) s.otps;
  })
  pure (
      obj (
        "status"
        ↪ text "success" ⨾ "message"
        ↪ text "OTP sent" ⨾ "data"
        ↪ obj ("otp" ↪ text "123456" ⨾ end) ⨾ end))

-- `verify_device_registration`: `expires_at` is not looked at.
unfoldable pub register_verify : String → (smart_board_id otp : String) → Action MockStore Json
register_verify token board otp = do
  otp_data ← gets (λ s. lookup board s.otps)
  raise_if (elim otp_data [ none ↦ true | some d ↦ not (same d.otp otp) ]) (http 400 "Invalid OTP")
  modify (λ s. record s { registration_tokens = insert board token s.registration_tokens })
  pure (success (obj ("verification_token" ↪ text token ⨾ end)))

module _ (env : Env) (b64 : String → String) where
  -- The dict `tokens` of `complete_device_registration`
  unfoldable pub new_tokens : (ℕ → ℕ) → (ℕ → String) → String → Fields
  unfolding generate_jwt
  new_tokens clock random board =
      "api_key"
      ↪ text ("bk_live_mock_" ^^ random 0) ⨾ "access_token"
      ↪ text (generate_jwt env b64 clock (random 1) board 900) ⨾ "refresh_token"
      ↪ text ("rt_" ^^ random 2) ⨾ "expires_in_ms"
      ↪ num 900000 ⨾ "token_type"
      ↪ text "Bearer" ⨾ end

  -- `complete_device_registration`: the tokens are stored before the board, whose room is the text
  -- behind the first dash of its id (`IndexError` without one).
  unfoldable pub register_complete :
      (ℕ → ℕ)
      → (ℕ → String)
      → (smart_board_id verification_token hardware_id : String) → Action MockStore Json
  unfolding new_tokens
  register_complete clock random board token hardware_id = do
    stored_token ← gets (λ s. lookup board s.registration_tokens)
    raise_if (elim stored_token [ none ↦ true | some t ↦ not (truthy t) || not (same t token) ])
        (http 400 "Invalid verification token")
    let tokens = new_tokens clock random board
    modify (λ s. record s { tokens = insert board tokens s.tokens })
    room ← or_raise (second (split 45 board)) crash
    modify (λ s. record s {
      boards =
          insert board
            (board_entry board ("Room " ^^ room)
              ("hardware_id" ↪ text hardware_id ⨾ "firmware_version" ↪ text "v5.4" ⨾ end))
            s.boards;
    })
    pure (success (obj tokens))

  -- `refresh_token`, on the parsed body. A body that is no dict and a token that is no text raise.
  unfoldable pub refresh_token : (ℕ → ℕ) → String → Json → Action MockStore Json
  unfolding generate_jwt
  refresh_token clock uuid body = do
    token ← or_raise (refresh_of body) crash
    raise_if (not (starts_with token "rt_")) (http 401 "Invalid refresh token")
    pure (
        obj (
          "access_token"
          ↪ text (generate_jwt env b64 clock uuid "IASB-4208" 900) ⨾ "expires_in_ms"
          ↪ num 900000 ⨾ end))

  -- `mock_reset`
  unfoldable pub mock_reset : (ℕ → ℕ) → (ℕ → String) → Action MockStore Json
  unfolding seed_defaults
  mock_reset clock random = do
    modify (λ s. seed_defaults env b64 clock random fresh)
    pure (status "reset")
