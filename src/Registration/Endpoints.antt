-- ===== src/Registration/Endpoints.antt =====
-- The routes of `auth_router` in backend/python/main.py and their bodies in
-- backend/python/models/board_auth_schema.py. Each runs inside the session of `get_db`.
use Prim.Native.String.{count}
use intelli_attend_smart_boa.Base.{ℕ, String, Option, none, some, not, ◌==◌, ◌||◌, or_else, truthy}
use intelli_attend_smart_boa.Json.{Json}
use intelli_attend_smart_boa.Http.{
  http, Action, pure, raise, raise_if, ◌>>=◌, ◌>>◌, get_db, guarded,
}
use intelli_attend_smart_boa.Models.{Db}
use intelli_attend_smart_boa.Env.{Env, FirebaseClaims}
use intelli_attend_smart_boa.Security.{bearer}
use intelli_attend_smart_boa.Registration.{register_initiate, register_verify, register_complete}

pub record DeviceRegisterInitiateRequest : Type 0 where
  pub smart_board_id : String
  pub password : Option String

pub record DeviceRegisterVerifyRequest : Type 0 where
  pub smart_board_id : String
  pub otp : String

-- `complete` reads its body as a dict; `""` stands for a missing key, as in the source.
pub record DeviceRegisterCompleteRequest : Type 0 where
  pub smart_board_id : String
  pub verification_token : String
  pub hardware_id : String
  pub metadata : Option Json

module _ (env : Env) where
  -- The header checks that `login` and `complete` share.
  unfoldable pub firebase_caller : Option String → Action Db FirebaseClaims
  firebase_caller authorization = elim (bearer authorization) [
    | none ↦ raise (http 401 "AUTH_FAILED: Missing Firebase Authorization header")
    | some token ↦ elim (env.verify_id_token token) [
      | none ↦ raise (http 401 "AUTH_FAILED: Invalid Firebase ID token")
      | some decoded ↦ pure decoded
    ]
  ]

  -- POST /login
  unfoldable pub initiate_device_registration :
      (ℕ → ℕ) → ℕ → String → Option String → DeviceRegisterInitiateRequest → Action Db Json
  unfolding firebase_caller
  initiate_device_registration clock random id authorization body = get_db (do
    decoded ← firebase_caller authorization
    guarded "Registration initiation failed" (
        register_initiate env clock random id body.smart_board_id (or_else decoded.uid "")
          (or_else decoded.email "")))

  -- POST /verify; the schema wants an OTP of six characters.
  unfoldable pub verify_device_registration : (ℕ → ℕ) → DeviceRegisterVerifyRequest → Action Db Json
  verify_device_registration clock body = get_db (do
    raise_if (not (count body.otp == 6)) (http 422 "otp")
    guarded "OTP verification failed" (register_verify env clock body.smart_board_id body.otp))

  -- POST /complete
  unfoldable pub complete_device_registration :
      ℕ → Option String → DeviceRegisterCompleteRequest → Action Db Json
  unfolding firebase_caller
  complete_device_registration now authorization body = get_db (do
    firebase_caller authorization
    raise_if
        (not (truthy body.smart_board_id)
          || not (truthy body.verification_token)
          || not (truthy body.hardware_id))
        (http 400 "Missing required fields")
    guarded "Registration completion failed" (
        register_complete env now body.smart_board_id body.verification_token body.hardware_id
          body.metadata))
