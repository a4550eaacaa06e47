-- ===== src/Registration.antt =====
-- The registration flow of backend/python/services/auth_service.py (`register_initiate_pg`,
-- `register_verify_pg`, `register_complete_pg`) over the tables `users` and
-- `pending_registrations`. `clock k` is the k-th reading of `datetime.now` in one call, and random
-- values are arguments. A column that the schema declares unique selects one row at most.
mod Pending
pub mod Endpoints
pub mod Verify
pub mod Throttle
pub mod Flow
mod Tests
unfoldable pub use Pending.*
use intelli_attend_smart_boa.Base.{
  ℕ, ◌+◌, ◌-◌, ◌/◌, String, Bool, true, false, Option, none, some, List, [], ◌∷◌, ◌++◌, ◌&&◌, ◌||◌,
  not, if◌then◌else◌, same, ltb, leb, str, slice_to, or_else, ◌^^◌, find, some?, modify_first,
  remove_first,
}
use intelli_attend_smart_boa.Json.{Json, null, bool, text, obj, end, ◌↪◌⨾◌, optional}
use intelli_attend_smart_boa.Http.{
  Error, http, crash, Action, pure, raise, gets, raise_if, modify, ◌>>=◌, ◌>>◌,
}
use intelli_attend_smart_boa.Models.{User, UserRole, AuthStatus, PendingRegistration, Db, minutes}
use intelli_attend_smart_boa.Env.{Env, JwtClaims, Decoded, claims, expired, invalid}

module _ (env : Env) where
  -- Step 1. `random` and `id` are the draws of `_generate_otp` and of `secrets.token_hex(16)`.
  unfoldable pub register_initiate :
      (ℕ → ℕ) → ℕ → String → (smart_board_id firebase_uid email : String) → Action Db Json
  unfolding check_account check_attempts store_otp lookup_pending generate_otp
  register_initiate clock random id board uid email = do
    existing ← gets (λ db. find (has_email email) db.users)
    early ← check_account board uid email existing
    elim early [
      | some answer ↦ pure answer
      | none ↦ do
        pending ← gets (lookup_pending board)
        check_attempts clock board pending
        store_otp clock id board uid email (env.sha256 (generate_otp random)) pending
        pure (
            obj (
              "status"
              ↪ text "otp_required" ⨾ "is_registered"
              ↪ bool false ⨾ "smart_board_id"
              ↪ text board ⨾ "admin_email"
              ↪ text email ⨾ end))
    ]

  -- `_generate_verification_token`
  unfoldable pub generate_verification_token : ℕ → ℕ → String → String
  generate_verification_token issued expires board =
      env.jwt_encode
        (record {
          sub = some board;
          purpose = some "registration_verification";
          role = none;
          iat = issued;
          exp = expires + minutes verification_token_ttl_minutes;
        })
        env.jwt_secret

  -- The tests of `register_verify_pg` on the row that was found, in the source's order.
  unfoldable pub check_otp : (ℕ → ℕ) → String → String → PendingRegistration → Action Db (Unit {0})
  unfolding lockout_pending
  check_otp clock board otp p = do
    raise_if (locked_at p (clock 0)) (http 429 "Too many attempts. Try again later.")
    if leb otp_max_attempts p.attempts
        then (do
          update_pending board (lockout_pending (clock 1))
          raise (
              http 429 (
                "Too many failed attempts. Locked out for "
                ^^ str otp_lockout_minutes
                ^^ " minutes")))
        else pure tt
    raise_if (ltb p.otp_expires_at (clock 2)) (http 400 "OTP expired")
    if same p.otp_hash (env.sha256 otp) then pure tt else (do
      update_pending board (λ r. record r { attempts = r.attempts + 1 })
      raise (
          http 400 (
            "Invalid OTP. "
            ^^ str (otp_max_attempts - (p.attempts + 1))
            ^^ " attempts remaining.")))

  -- Step 2.
  unfoldable pub register_verify : (ℕ → ℕ) → (smart_board_id otp : String) → Action Db Json
  unfolding lookup_pending check_otp generate_verification_token
  register_verify clock board otp = do
    found ← gets (lookup_pending board)
    elim found [
      | none ↦ raise (http 400 "Invalid OTP or Session Expired")
      | some p ↦ do
        check_otp clock board otp p
        modify (λ db. record db { pending = remove_first (for_board board) db.pending })
        pure (
            obj (
              "verification_token"
              ↪ text (generate_verification_token (clock 3) (clock 4) board) ⨾ end))
    ]

  -- The checks of step 3 on the token; a `ValueError` is no `InvalidTokenError`.
  unfoldable pub check_verification : ℕ → String → String → Action Db (Unit {0})
  check_verification now board token = elim (env.jwt_decode token env.jwt_secret now) [
    | claims c ↦ do
      raise_if (not (column_is c.purpose "registration_verification")) crash
      raise_if (not (column_is c.sub board)) crash
    | expired ↦ raise (http 400 "Verification token expired")
    | invalid ↦ raise (http 400 "Invalid verification token")
  ]

  abbrev pub registered_profile : String → User → Json
  registered_profile board u = obj (
      "custom_token"
      ↪ optional (env.create_custom_token (or_else u.firebase_uid board)) ⨾ "smart_board_id"
      ↪ text board ⨾ "classroom_id"
      ↪ text (or_else u.room_id "") ⨾ "room_name"
      ↪ text (or_else (some u.name) ("SmartBoard " ^^ board)) ⨾ "building"
      ↪ text "" ⨾ "department"
      ↪ text "" ⨾ end)

  -- Step 3. The hardware id and its metadata are accepted and not used.
  unfoldable pub register_complete :
      ℕ → (smart_board_id verification_token hardware_id : String) → Option Json → Action Db Json
  unfolding check_verification
  register_complete now board token hardware_id metadata = do
    check_verification now board token
    found ← gets (λ db. find (has_board board) db.users)
    elim found [
      | none ↦ raise (http 403 "Board not found")
      | some u ↦ elim (u.auth_status) [
        | AuthStatus.pending ↦ do
          modify (λ db. record db {
            users =
                modify_first (has_board board) (λ r. record r { auth_status = AuthStatus.active })
                  db.users;
          })
          pure (registered_profile board u)
        | _ ↦ raise (http 400 "Board is not pending registration")
      ]
    ]
