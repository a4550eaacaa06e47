-- ===== src/Registration/Verify.antt =====
-- `register_verify_pg` on every branch.
use intelli_attend_smart_boa.Base.{
  ℕ, ◌+◌, ◌-◌, ◌≤◌, ◌<◌, String, ◌≡◌, ◌≢◌, false, some, arith, same_iff, str, ◌^^◌, remove_first,
  modify_first,
}
use intelli_attend_smart_boa.Json.{Json, text, obj, end, ◌↪◌⨾◌}
use intelli_attend_smart_boa.Http.{http, ok, err}
use intelli_attend_smart_boa.Models.{Db, PendingRegistration}
use intelli_attend_smart_boa.Env.{Env}
use intelli_attend_smart_boa.Registration.{
  otp_max_attempts, for_board, locked_at, lookup_pending, generate_verification_token,
  register_verify,
}

abbrev pub verified : Env → (ℕ → ℕ) → String → Json
verified env clock board =
    obj (
      "verification_token" ↪ text (generate_verification_token env (clock 3) (clock 4) board) ⨾ end)

module _ (env : Env) (clock : ℕ → ℕ) (board otp : String) (db : Db) where
  -- The row lets an OTP through: it is not locked, has attempts left, has not expired, and holds
  -- the hash of the OTP.
  pub record Accepts (p : PendingRegistration) : Type 0 where
    pub found : lookup_pending board db ≡ some p
    pub unlocked : locked_at p (clock 0) ≡ false
    pub tries : p.attempts < otp_max_attempts
    pub fresh : clock 2 ≤ p.otp_expires_at
    pub matches : p.otp_hash ≡ env.sha256 otp

  -- An accepted OTP is answered with a verification token, and its row is deleted.
  pub register_verify_accepted :
      (p : PendingRegistration)
      → Accepts p
      → register_verify env clock board otp db ≡ (
        ok (verified env clock board),
        record db { pending = remove_first (for_board board) db.pending },
      )
  unfolding register_verify
  register_verify_accepted p a = ground (arith, same_iff p.otp_hash (env.sha256 otp))

  -- An answer means that the row let the OTP through.
  pub register_verify_ok :
      (p : PendingRegistration) (answer : Json) (db' : Db)
      → lookup_pending board db ≡ some p
      → register_verify env clock board otp db ≡ (ok answer, db')
      → Accepts p
  unfolding register_verify
  register_verify_ok p answer db' found h = record {
    found = found;
    unlocked = ground arith;
    tries = ground arith;
    fresh = ground arith;
    matches = ground (arith, same_iff p.otp_hash (env.sha256 otp));
  }

  -- A wrong OTP against a row that is open is refused, and inside the transaction the row's
  -- counter goes up by one.
  pub register_verify_wrong :
      (p : PendingRegistration)
      → lookup_pending board db ≡ some p
      → locked_at p (clock 0) ≡ false
      → p.attempts < otp_max_attempts
      → clock 2 ≤ p.otp_expires_at
      → p.otp_hash ≢ env.sha256 otp
      → register_verify env clock board otp db ≡ (
        err (
            http 400 (
              "Invalid OTP. "
              ^^ str (otp_max_attempts - (p.attempts + 1))
              ^^ " attempts remaining.")),
        record db {
          pending =
              modify_first
                (for_board board)
                (λ r. record r { attempts = r.attempts + 1 })
                db.pending;
        },
      )
  unfolding register_verify
  register_verify_wrong p found open_row tries fresh wrong =
      ground (arith, same_iff p.otp_hash (env.sha256 otp))
