-- ===== src/BinaryToken/Command.antt =====
-- The command line of iatt_validator.py around `validate`: a payload that is given, or the texts that
-- are pasted until a `q` or an interrupt. `strip` and `lower` are those of Python's texts.
use intelli_attend_smart_boa.Base.{
  ℕ, String, Bool, Option, none, some, List, [], ◌∷◌, same, truthy, if◌then◌else◌,
}
use intelli_attend_smart_boa.BinaryToken.{Message, validate}

-- What is printed of a result: the message after a mark, and with `--quiet` one word.
pub data Output : Type 0 where
  failed : Message → Output
  passed : Message → Output
  valid : Output

module _ (urlsafe_b64decode : String → Option (List ℕ)) (hmac : String → List ℕ → List ℕ) where
  -- With `--payload`: what is printed and the code of `sys.exit`.
  unfoldable pub check_payload : (now : ℕ) → (secret payload : String) → (quiet : Bool) → Output × ℕ
  unfolding validate
  check_payload now secret payload quiet =
      let (success, message) = validate urlsafe_b64decode hmac now secret payload in
      if success then (if quiet then valid else passed message, 0) else (failed message, 1)

  module _ (strip lower : String → String) where
    -- The loop of the prompt, on the times and the texts of its rounds; an interrupt ends it.
    unfoldable pub prompt : (secret : String) → List (ℕ × String) → List Output
    unfolding validate
    prompt secret [] = []
    prompt secret ((now, line) ∷ rounds) =
        let payload = strip line in
        let rest = prompt secret rounds in
        let (success, message) = validate urlsafe_b64decode hmac now secret payload in
        if same (lower payload) "q"
        then []
        else if truthy payload
        then (if success then passed message else failed message) ∷ rest
        else rest

    -- The command: the outputs and the exit code.
    unfoldable pub command :
        (now : ℕ)
        → (secret : String) → (payload : Option String) → (quiet : Bool) → List (ℕ × String)
        → List Output × ℕ
    unfolding check_payload prompt
    command now secret none quiet rounds = (prompt secret rounds, 0)
    command now secret (some payload) quiet rounds =
        let (output, code) = check_payload now secret payload quiet in
        if truthy payload then (output ∷ [], code) else (prompt secret rounds, 0)
