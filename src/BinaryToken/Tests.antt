-- ===== src/BinaryToken/Tests.antt =====
-- A token of twenty zero bytes under an HMAC of zeros; its time is the epoch.
use Prim.Native.String.{count}
use intelli_attend_smart_boa.Base.{
  ℕ, ◌+◌, ◌%◌, ◌<◌, ◌≡◌, ◌↔◌, refl, sym, String, true, false, same, Option, none, some, List, [],
  ◌∷◌, ◌++◌, take, drop, arith, starts_with,
}
use intelli_attend_smart_boa.BinaryToken.Command.{valid, failed, passed, command}
use intelli_attend_smart_boa.BinaryToken.{pad, invalid_token, stale, validate, decode_v7_token}
use intelli_attend_smart_boa.BinaryToken.Laws.{AreBytes, IsToken, pad_lem, validate_iff}

pad_lem_example :
    (count (pad 3 "QUJD\tR") % 4 ≡ 0)
    × (pad (9 + 3) "QUJD\tR" ≡ pad 3 "QUJD\tR")
    × (count (pad 3 "QUJD\tR") < count "QUJD\tR" + 4)
pad_lem_example = pad_lem 9 "QUJD\tR"

padded : pad 3 "QUJDR" ≡ "QUJDR==="
unfolding pad
padded = refl

abbrev four_zeros : List ℕ
four_zeros = 0 ∷ 0 ∷ 0 ∷ 0 ∷ []

abbrev zeros : List ℕ
zeros = four_zeros ++ four_zeros ++ four_zeros ++ four_zeros ++ four_zeros

abbrev decode_zeros : String → Option (List ℕ)
decode_zeros s = some zeros

abbrev digest_zeros : String → List ℕ → List ℕ
digest_zeros key message = zeros

abbrev plain : String → String
plain s = s

zeros-AreBytes : AreBytes zeros
zeros-AreBytes = ground arith

decoded-AreBytes : (s : String) (raw : List ℕ) → decode_zeros s ≡ some raw → AreBytes raw
decoded-AreBytes s raw h = let e : zeros ≡ raw = ground arith in rw (sym e) zeros-AreBytes

validate_iff_example : ((validate decode_zeros digest_zeros 400 "secret" "IATT::AAAA").0 ≡ true) ↔ (
    (raw : List ℕ) × IsToken decode_zeros digest_zeros "IATT::AAAA" raw
    × (drop 12 raw ≡ take 8 (digest_zeros "secret" (take 12 raw))))
validate_iff_example =
    validate_iff decode_zeros digest_zeros decoded-AreBytes 400 "secret" "IATT::AAAA"

-- An old token is accepted.
accepted_old : validate decode_zeros digest_zeros 400 "secret" "IATT::AAAA" ≡ (true, stale 400 0)
unfolding validate decode_v7_token starts_with
accepted_old = refl

-- With `--quiet` the command prints VALID and exits with 0 for the old token, and with 1 for a text
-- that is no token. The loop of the prompt ends at a `q`.
quiet_run :
    command decode_zeros digest_zeros plain plain 400 "secret" (some "IATT::AAAA") true []
    ≡ (valid ∷ [], 0)
unfolding command validate decode_v7_token starts_with same
quiet_run = refl

failed_run :
    command decode_zeros digest_zeros plain plain 400 "secret" (some "token") true []
    ≡ (failed invalid_token ∷ [], 1)
unfolding command validate decode_v7_token starts_with same
failed_run = refl

prompt_run :
    command decode_zeros digest_zeros plain plain 400 "secret" none false
      ((400, "") ∷ (400, "IATT::AAAA") ∷ (400, "q") ∷ (400, "IATT::AAAA") ∷ [])
    ≡ (passed (stale 400 0) ∷ [], 0)
unfolding command validate decode_v7_token starts_with same
prompt_run = refl
