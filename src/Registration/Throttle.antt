-- ===== src/Registration/Throttle.antt =====
-- What the attempt counter of `register_verify_pg` does behind the route POST /verify.
use Prim.Native.String.{count}
use intelli_attend_smart_boa.Base.{
  ℕ, ◌+◌, ◌-◌, ◌≤◌, ◌<◌, ◌==◌, String, ◌≡◌, refl, ◌≢◌, true, false, some, arith, str, ◌^^◌, List,
  [], ◌∷◌, map,
}
use intelli_attend_smart_boa.Json.{Json}
use intelli_attend_smart_boa.Http.{http, Result, ok, err, get_db}
use intelli_attend_smart_boa.Models.{Db, PendingRegistration}
use intelli_attend_smart_boa.Env.{Env}
use intelli_attend_smart_boa.Registration.{otp_max_attempts, locked_at, lookup_pending}
use intelli_attend_smart_boa.Registration.Verify.{
  Accepts, verified, register_verify_wrong, register_verify_accepted,
}
use intelli_attend_smart_boa.Registration.Endpoints.{verify_device_registration}

-- One request to POST /verify: the clock of its call, and the OTP that it tries.
pub record Guess : Type 0 where
  pub clock : ℕ → ℕ
  pub otp : String

module _ (env : Env) (board : String) where
  abbrev pub attempt : Guess → Db → Result Json × Db
  attempt g =
      verify_device_registration env g.clock (record { smart_board_id = board; otp = g.otp })

  -- The responses to a sequence of requests, and the database after it.
  pub attempts_run : List Guess → Db → List (Result Json) × Db
  attempts_run [] db = ([], db)
  attempts_run (g ∷ gs) db =
      let (r, db1) = attempt g db in let (rs, db2) = attempts_run gs db1 in (r ∷ rs, db2)

  module _ (db : Db) (p : PendingRegistration) where
    -- A wrong OTP of six characters, tried before the row's OTP expires.
    pub record IsWrong (g : Guess) : Type 0 where
      pub six : (count g.otp == 6) ≡ true
      pub unlocked : locked_at p (g.clock 0) ≡ false
      pub fresh : g.clock 2 ≤ p.otp_expires_at
      pub wrong : p.otp_hash ≢ env.sha256 g.otp

    abbrev pub AllWrong : List Guess → Type 0
    AllWrong [] = Unit
    AllWrong (g ∷ gs) = IsWrong g × AllWrong gs

    abbrev pub refusal : Result Json
    refusal = err (
        http 400
          ("Invalid OTP. " ^^ str (otp_max_attempts - (p.attempts + 1)) ^^ " attempts remaining."))

    attempt_wrong :
        (g : Guess)
        → lookup_pending board db ≡ some p
        → p.attempts < otp_max_attempts
        → IsWrong g
        → attempt g db ≡ (refusal, db)
    unfolding verify_device_registration get_db
    attempt_wrong g found tries w = ground (
      arith,
      register_verify_wrong env g.clock board g.otp db p found w.unlocked tries w.fresh w.wrong,
    )

    -- The counter does not survive the request that raises it: whatever the number of wrong guesses
    -- at an open row, each is answered with the same number of remaining attempts, and the database
    -- is left as it was, so the row is never locked.
    pub attempts_run_wrong :
        (gs : List Guess)
        → lookup_pending board db ≡ some p
        → p.attempts < otp_max_attempts
        → AllWrong gs
        → attempts_run gs db ≡ (map (λ _. refusal) gs, db)
    unfolding attempts_run
    attempts_run_wrong [] found tries h = refl
    attempts_run_wrong (g ∷ gs) found tries (w, ws) =
        ground (arith, attempt_wrong g found tries w, attempts_run_wrong gs found tries ws)

    -- A guesser is not stopped: after any number of wrong guesses the right OTP is still accepted.
    pub right_after_wrong :
        (gs : List Guess) (g : Guess)
        → lookup_pending board db ≡ some p
        → p.attempts < otp_max_attempts
        → AllWrong gs
        → (count g.otp == 6) ≡ true
        → Accepts env g.clock board g.otp db p
        → (attempt g (attempts_run gs db).1).0 ≡ ok (verified env g.clock board)
    unfolding verify_device_registration get_db
    right_after_wrong gs g found tries h six a =
        rw (attempts_run_wrong gs found tries h)
          (ground (arith, register_verify_accepted env g.clock board g.otp db p a))
