-- ===== src/QrToken/Tests.antt =====
-- A signed token, and one of `generate_token`, under an environment that hashes to digits.
use intelli_attend_smart_boa.Base.{
  Bool, Option, ◌↔◌, slice_to, String, ◌≡◌, refl, true, false, some, ◌^^◌, starts_with,
}
use intelli_attend_smart_boa.Env.{Env}
use intelli_attend_smart_boa.Json.{PyInt, natural}
use intelli_attend_smart_boa.Fixtures.{test_env}
use intelli_attend_smart_boa.QrToken.{is_ascii, validate_qr_token}
use intelli_attend_smart_boa.QrToken.Laws.{IsRecent, validate_signed}

-- One digest for all.
abbrev digest_env : Env
digest_env = record test_env { sha256 = λ s. "0a1b" }

ascii_signature : is_ascii "S|1000" ≡ true
unfolding is_ascii
ascii_signature = refl

abbrev decode_plain : String → Option String
decode_plain s = some s

abbrev one_second : String → Option PyInt
one_second s = some (natural 1000)

validate_signed_example :
    let answer =
      validate_qr_token test_env decode_plain one_second 2000 30000
        ("IATT::" ^^ "S|1000" ^^ "::" ^^ "S|1000")
        "secret" in
    ((accepted : Bool) × (answer ≡ some accepted))
    × ((answer ≡ some true) ↔ (
        ("S|1000" ≡ slice_to 16 (test_env.hmac_sha256 "secret" "S|1000"))
        × IsRecent test_env decode_plain one_second 2000 30000 "S|1000"))
validate_signed_example =
    validate_signed test_env decode_plain one_second 2000 30000 "S|1000" "S|1000" "secret"
      (refl, (refl, (refl, (refl, (refl, (refl, tt))))))
      (refl, (refl, (refl, (refl, (refl, (refl, tt)))))) ascii_signature

no_prefix : (s : String) → starts_with (digest_env.sha256 s) "IATT::" ≡ false
unfolding starts_with
no_prefix s = refl
