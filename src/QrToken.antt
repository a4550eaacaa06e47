-- ===== src/QrToken.antt =====
-- The QR tokens of backend/python/services/token_validator.py. Times are milliseconds.
pub mod Laws
mod Tests
use Prim.Native.Char.{Char, code}
use Prim.Native.String
use intelli_attend_smart_boa.Base.{
  ℕ, ◌+◌, ◌-◌, String, Bool, true, false, not, Option, none, some, List, [], ◌∷◌, ◌==◌, ◌&&◌, same,
  ltb, leb, str, slice_to, starts_with, split, second, ◌^^◌, if◌then◌else◌,
}
use intelli_attend_smart_boa.Env.{Env}
use intelli_attend_smart_boa.Json.{PyInt, natural, negative}

-- `generate_token`
unfoldable pub generate_token : Env → (session_id session_secret : String) → ℕ → String
generate_token env session_id session_secret ts_ms =
    env.sha256 (session_id ^^ ":" ^^ session_secret ^^ ":" ^^ str ts_ms)

abbrev pub is_colon : Char → Bool
is_colon c = code c == 58

-- The first piece with a character before it.
abbrev pub before : Char → List String → List String
before c [] = String.◌∷◌ c "" ∷ []
before c (s ∷ rest) = String.◌∷◌ c s ∷ rest

-- `s.split("::")`; the flag says that the next character is the second colon of a separator.
unfoldable pub split_colons : Bool → String → List String
split_colons skip String.[] = "" ∷ []
split_colons true (String.◌∷◌ c s) = split_colons false s
split_colons false (String.◌∷◌ c s) =
    let cut = split_colons true s in
    let kept = split_colons false s in
    if is_colon c && starts_with s ":" then "" ∷ cut else before c kept

-- `abs(now_ms - ts_ms) > max_age_ms`
unfoldable pub is_stale : (now max_age : ℕ) → PyInt → Bool
is_stale now max_age (natural ts) =
    if leb ts now then ltb max_age (now - ts) else ltb max_age (ts - now)
is_stale now max_age (negative n) = ltb max_age (now + n + 1)

-- `s.isascii()`
unfoldable pub is_ascii : String → Bool
is_ascii String.[] = true
is_ascii (String.◌∷◌ c s) = ltb (code c) 128 && is_ascii s

-- `base64.b64decode(…).decode("utf-8")` and `int` of a text, `none` where they raise.
module _ (env : Env) (b64decode : String → Option String) (int : String → Option PyInt) where
  -- The checks behind the signature.
  unfoldable pub is_fresh : (now max_age : ℕ) → (payload : String) → Bool
  unfolding is_stale
  is_fresh now max_age payload = elim (b64decode payload) [
    | none ↦ false
    | some decoded ↦ elim (second (split b'|' decoded)) [
      | none ↦ false
      | some timestamp ↦ elim (int timestamp) [
        | none ↦ false
        | some ts ↦ not (is_stale now max_age ts)
      ]
    ]
  ]

  abbrev pub signature : (session_secret payload : String) → String
  signature session_secret payload = slice_to 16 (env.hmac_sha256 session_secret payload)

  -- The checks on the parts of a token; `none` where `compare_digest` raises, as it does for a text
  -- that is not ASCII.
  unfoldable pub check_parts :
      (now max_age : ℕ) → (session_secret : String) → List String → Option Bool
  unfolding is_fresh
  check_parts now max_age session_secret (prefix ∷ payload ∷ provided ∷ []) =
      if is_ascii provided
      then some (
          if same (signature session_secret payload) provided
          then is_fresh now max_age payload
          else false)
      else none
  check_parts now max_age session_secret _ = some false

  -- `validate_qr_token`
  unfoldable pub validate_qr_token :
      (now max_age : ℕ) → (token session_secret : String) → Option Bool
  unfolding split_colons check_parts
  validate_qr_token now max_age token session_secret =
      if starts_with token "IATT::"
      then check_parts now max_age session_secret (split_colons false token)
      else some false
