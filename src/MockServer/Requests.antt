-- ===== src/MockServer/Requests.antt =====
-- The requests that the mock backend serves, with bodies that the framework has validated.
use intelli_attend_smart_boa.Base.{ℕ, String, List, [], ◌∷◌}
use intelli_attend_smart_boa.Json.{Json}
use intelli_attend_smart_boa.Http.{Action}
use intelli_attend_smart_boa.Env.{Env}
use intelli_attend_smart_boa.MockServer.{
  MockStore, health, get_server_time, board_ready, get_preflight, initiate_session,
  record_attendance, terminate_session, board_heartbeat, receive_telemetry, sync_context,
  register_login, register_verify, register_complete, refresh_token, create_session, mock_state,
  mock_reset,
}

pub data Request : Type 0 where
  get_health get_time get_ready post_attendance post_terminate post_telemetry : Request
  get_context post_create get_state post_reset : Request
  preflight : (slot_id : String) → Request
  initiate : (otp : String) → Request
  heartbeat : (screen_state : String) → (uptime_seconds : ℕ) → Request
  login : (smart_board_id password : String) → Request
  verify : (smart_board_id otp : String) → Request
  complete : (smart_board_id verification_token hardware_id : String) → Request
  refresh : Json → Request

-- One request with what it draws: the readings of the clock and the random texts.
pub record Event : Type 0 where
  pub request : Request
  pub clock : ℕ → ℕ
  pub random : ℕ → String

module _ (env : Env) (b64 : String → String) where
  -- The routes of `app`
  unfoldable pub serve : Request → (ℕ → ℕ) → (ℕ → String) → Action MockStore Json
  unfolding health get_server_time board_ready get_preflight initiate_session record_attendance
      terminate_session board_heartbeat receive_telemetry sync_context register_login
      register_verify register_complete refresh_token create_session mock_state mock_reset
  serve Request.get_health clock random = health (clock 0)
  serve Request.get_time clock random = get_server_time (clock 0)
  serve Request.get_ready clock random = board_ready env (clock 0)
  serve Request.post_attendance clock random = record_attendance
  serve Request.post_terminate clock random = terminate_session
  serve Request.post_telemetry clock random = receive_telemetry
  serve Request.get_context clock random = sync_context
  serve Request.post_create clock random = create_session (random 0)
  serve Request.get_state clock random = mock_state
  serve Request.post_reset clock random = mock_reset env b64 clock random
  serve (Request.preflight slot) clock random = get_preflight (clock 0) (random 0) slot
  serve (Request.initiate otp) clock random = initiate_session random otp
  serve (Request.heartbeat screen uptime) clock random = board_heartbeat (clock 0) screen uptime
  serve (Request.login board password) clock random = register_login (clock 0) board password
  serve (Request.verify board otp) clock random = register_verify (random 0) board otp
  serve (Request.complete board token hardware) clock random =
      register_complete env b64 clock random board token hardware
  serve (Request.refresh body) clock random = refresh_token env b64 clock (random 0) body

  -- The store after a sequence of requests; one that raises keeps what it wrote.
  unfoldable pub serve_all : List Event → MockStore → MockStore
  unfolding serve
  serve_all [] s = s
  serve_all (e ∷ es) s = serve_all es (serve e.request e.clock e.random s).1
