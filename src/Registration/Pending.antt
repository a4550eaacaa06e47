-- ===== src/Registration/Pending.antt =====
-- The rows of the registration: what its steps look up, check and write in `users` and
-- `pending_registrations`.
use intelli_attend_smart_boa.Base.{
  ℕ, ◌+◌, ◌-◌, ◌/◌, String, Bool, true, false, Option, none, some, [], ◌∷◌, ◌++◌, ◌||◌,
  if◌then◌else◌, same, ltb, leb, str, slice_to, or_else, ◌^^◌, find, some?, modify_first,
}
use intelli_attend_smart_boa.Json.{Json, bool, text, obj, end, ◌↪◌⨾◌, optional}
use intelli_attend_smart_boa.Http.{http, crash, Action, pure, raise, raise_if, modify, ◌>>◌}
use intelli_attend_smart_boa.Models.{User, UserRole, AuthStatus, PendingRegistration, Db, minutes}

abbrev pub otp_max_attempts : ℕ
otp_max_attempts = 10

abbrev pub otp_lockout_minutes : ℕ
otp_lockout_minutes = 15

abbrev pub verification_token_ttl_minutes : ℕ
verification_token_ttl_minutes = 15

-- `column == value` on a nullable column: NULL is equal to nothing.
abbrev pub column_is : Option String → String → Bool
column_is none s = false
column_is (some t) s = same t s

abbrev pub for_board : String → PendingRegistration → Bool
for_board board p = same p.smart_board_id board

abbrev pub has_email : String → User → Bool
has_email email u = same u.email email

abbrev pub has_board : String → User → Bool
has_board board u = column_is u.smart_board_id board

-- `_generate_otp`: the random number is below 900000.
unfoldable pub generate_otp : ℕ → String
generate_otp random = str (random + 100000)

-- `_lookup_pending`
unfoldable pub lookup_pending : String → Db → Option PendingRegistration
lookup_pending board db = find (for_board board) db.pending

-- `_lockout_pending`
unfoldable pub lockout_pending : ℕ → PendingRegistration → PendingRegistration
lockout_pending now p = record p {
  attempts = otp_max_attempts;
  locked_until = some (now + minutes otp_lockout_minutes);
}

-- `pending.locked_until and pending.locked_until > now`
abbrev pub locked_at : PendingRegistration → ℕ → Bool
locked_at p now = elim (p.locked_until) [ none ↦ false | some t ↦ ltb now t ]

abbrev pub update_pending :
    String → (PendingRegistration → PendingRegistration) → Action Db (Unit {0})
update_pending board f =
    modify (λ db. record db { pending = modify_first (for_board board) f db.pending })

-- `session.add(user)` and `flush`: an `IntegrityError` where a unique column is taken.
abbrev pub clashes : User → User → Bool
clashes new u =
    same u.id new.id
    || same u.email new.email
    || elim (new.firebase_uid) [ none ↦ false | some f ↦ column_is u.firebase_uid f ]
    || elim (new.smart_board_id) [ none ↦ false | some b ↦ column_is u.smart_board_id b ]

unfoldable pub add_user : User → Action Db (Unit {0})
add_user new db =
    if some? (clashes new) db.users
    then raise crash db
    else modify (λ d. record d { users = d.users ++ new ∷ [] }) db

abbrev pub pending_clashes : PendingRegistration → PendingRegistration → Bool
pending_clashes new p =
    same p.id new.id
    || same p.smart_board_id new.smart_board_id
    || elim (new.firebase_uid) [ none ↦ false | some f ↦ column_is p.firebase_uid f ]

unfoldable pub add_pending : PendingRegistration → Action Db (Unit {0})
add_pending new db =
    if some? (pending_clashes new) db.pending
    then raise crash db
    else modify (λ d. record d { pending = d.pending ++ new ∷ [] }) db

-- The account check of `register_initiate_pg`: an early answer, a refusal, or a new account.
unfoldable pub check_account : String → String → String → Option User → Action Db (Option Json)
unfolding add_user
check_account board uid email none = do
  add_user (record {
    id = slice_to 32 uid;
    email = email;
    name = "SmartBoard " ^^ board;
    role = UserRole.board;
    auth_status = AuthStatus.pending;
    firebase_uid = some uid;
    smart_board_id = some board;
    room_id = none;
    institution_id = none;
    roll_number = none;
  })
  pure none
check_account board uid email (some u) = elim (u.auth_status) [
  | AuthStatus.active ↦ pure (
      some (
        obj (
          "status"
          ↪ text "already_registered" ⨾ "is_registered"
          ↪ bool true ⨾ "smart_board_id"
          ↪ text (or_else u.smart_board_id board) ⨾ "room_id"
          ↪ optional u.room_id ⨾ end)))
  | AuthStatus.pending ↦ pure none
  | AuthStatus.suspended ↦ raise (http 403 "BOARD_SUSPENDED: This board has been deactivated")
]

-- `int((locked_until - now).total_seconds())` in an f-string; the later reading may pass the end.
unfoldable pub remaining_seconds : ℕ → ℕ → String
remaining_seconds until now =
    if leb now until
    then str ((until - now) / 1_000_000)
    else if ltb (now - until) 1_000_000
    then "0"
    else "-" ^^ str ((now - until) / 1_000_000)

-- The rate limit of `register_initiate_pg`.
unfoldable pub check_attempts : (ℕ → ℕ) → String → Option PendingRegistration → Action Db (Unit {0})
unfolding lockout_pending
check_attempts clock board none = pure tt
check_attempts clock board (some p) = do
  elim (p.locked_until) [
    | none ↦ pure tt
    | some t ↦ raise_if (ltb (clock 0) t) (
        http 429
          ("Too many attempts. Try again in " ^^ remaining_seconds t (clock 1) ^^ " seconds"))
  ]
  if leb otp_max_attempts p.attempts
      then (do
        update_pending board (lockout_pending (clock 2))
        raise (
            http 429
              ("Too many attempts. Locked out for " ^^ str otp_lockout_minutes ^^ " minutes")))
      else pure tt

-- The OTP is stored in a new row, or in the board's old one with its counter reset.
unfoldable pub store_otp :
    (ℕ → ℕ)
    → String
    → String
    → String
    → String
    → String
    → Option PendingRegistration
    → Action Db (Unit {0})
unfolding add_pending
store_otp clock id board uid email otp_hash none = add_pending (record {
  id = id;
  smart_board_id = board;
  firebase_uid = some uid;
  email = some email;
  otp_hash = otp_hash;
  otp_expires_at = clock 3 + minutes 10;
  attempts = 0;
  locked_until = none;
})
store_otp clock id board uid email otp_hash (some p) = update_pending board (λ r. record r {
  otp_hash = otp_hash;
  otp_expires_at = clock 3 + minutes 10;
  attempts = 0;
  locked_until = none;
})
