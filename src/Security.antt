-- ===== src/Security.antt =====
-- Who may call: backend/python/core/security.py and `require_role` of
-- backend/python/services/auth_service.py.
pub mod Laws
mod Tests
use intelli_attend_smart_boa.Base.{
  String, Bool, true, false, Option, none, some, List, [], ◌∷◌, ◌||◌, not, if◌then◌else◌, same,
  truthy, find, some?, starts_with, split, second, ℕ,
}
use intelli_attend_smart_boa.Http.{Error, http, crash, Action, pure, raise, gets, ◌>>=◌}
use intelli_attend_smart_boa.Models.{User, UserRole, AuthStatus, Db}
use intelli_attend_smart_boa.Env.{Env, FirebaseClaims, JwtClaims, claims, expired, invalid}

-- `authorization.split(" ")[1]` behind the test that the header is a bearer header.
unfoldable pub bearer : Option String → Option String
bearer none = none
bearer (some header) = if starts_with header "Bearer " then second (split b' ' header) else none

abbrev pub role_name : UserRole → String
role_name UserRole.board = "board"
role_name UserRole.student = "student"
role_name UserRole.faculty = "faculty"
role_name UserRole.admin = "admin"

abbrev pub is_board : UserRole → Bool
is_board UserRole.board = true
is_board _ = false

abbrev pub is_active : AuthStatus → Bool
is_active AuthStatus.active = true
is_active _ = false

-- What `get_current_board_pg` hands to a handler.
pub record BoardData : Type 0 where
  pub user_id : String
  pub email : String
  pub name : String
  pub room_id : Option String
  pub institution_id : Option String
  pub auth_status : AuthStatus
  pub smart_board_id : Option String

abbrev pub board_data_of : User → BoardData
board_data_of u = record {
  user_id = u.id;
  email = u.email;
  name = u.name;
  room_id = u.room_id;
  institution_id = u.institution_id;
  auth_status = u.auth_status;
  smart_board_id = u.smart_board_id;
}

-- `user_role not in allowed_roles`
abbrev pub allowed : List String → Option String → Bool
allowed roles none = false
allowed roles (some r) = some? (λ a. same a r) roles

module _ (env : Env) where
  -- `verify_firebase_token` of core/security.py
  unfoldable pub verify_firebase_token : {S : Type 0} → Option String → Action S FirebaseClaims
  verify_firebase_token authorization = elim (bearer authorization) [
    | none ↦ raise (http 401 "AUTH_FAILED: Missing or invalid Authorization header")
    | some token ↦ elim (env.verify_id_token token) [
      | none ↦ raise (http 401 "AUTH_FAILED: Invalid Firebase ID token")
      | some decoded ↦ pure decoded
    ]
  ]

  -- The tests of `get_current_board_pg` on the row that was found, in the source's order.
  unfoldable pub admit_board : Option User → Action Db BoardData
  admit_board none = raise (http 403 "BOARD_NOT_FOUND: No board linked to this email")
  admit_board (some u) =
      if is_board u.role
      then (if is_active u.auth_status
          then pure (board_data_of u)
          else raise (http 403 "BOARD_SUSPENDED: This board has been deactivated"))
      else raise (http 403 "INSUFFICIENT_PERMISSIONS: User role is not 'board'")

  -- `get_current_board_pg`
  unfoldable pub get_current_board : Option String → Action Db BoardData
  unfolding verify_firebase_token admit_board
  get_current_board authorization = do
    decoded ← verify_firebase_token authorization
    elim (decoded.email) [
      | none ↦ raise (http 401 "AUTH_FAILED: No email claim in Firebase token")
      | some email ↦
          if truthy email
          then (do admit_board (← gets (λ db. find (λ (u : User). same u.email email) db.users)))
          else raise (http 401 "AUTH_FAILED: No email claim in Firebase token")
    ]

  -- `require_role`: the legacy JWT of the admin and faculty routes.
  unfoldable pub require_role : {S : Type 0} → List String → ℕ → Option String → Action S JwtClaims
  require_role roles now authorization = elim (bearer authorization) [
    | none ↦ raise (http 401 "Missing or invalid Authorization header")
    | some token ↦ elim (env.jwt_decode token env.jwt_secret now) [
      | claims c ↦
          if allowed roles c.role then pure c else raise (http 403 "Insufficient permissions")
      | expired ↦ raise (http 401 "Token expired")
      | invalid ↦ raise (http 401 "Invalid token")
    ]
  ]
