-- ===== src/MockServer/Store.antt =====
-- `MockStore` of scripts/mock_server.py: the dicts that the mock backend keeps in memory. The k-th
-- reading of the clock and the k-th random text of a call are arguments, and so is the base64
-- encoding of a text without its padding.
use intelli_attend_smart_boa.Base.{ℕ, ◌+◌, ◌/◌, String, true, [], ◌^^◌}
use intelli_attend_smart_boa.Dict.{Dict, insert}
use intelli_attend_smart_boa.Json.{Fields, bool, num, text, obj, end, ◌↪◌⨾◌}
use intelli_attend_smart_boa.Env.{Env}
use intelli_attend_smart_boa.Models.{seconds}

pub record Otp : Type 0 where
  pub otp : String
  pub expires_at : ℕ

pub record MockStore : Type 0 where
  pub boards : Dict Fields
  pub sessions : Dict Fields
  pub active_sessions : Dict Fields
  pub tokens : Dict Fields
  pub otps : Dict Otp
  pub heartbeats : Dict Fields
  pub registration_tokens : Dict String
  pub clock_skew : ℕ

-- `__init__`
abbrev pub fresh : MockStore
fresh = record {
  boards = [];
  sessions = [];
  active_sessions = [];
  tokens = [];
  otps = [];
  heartbeats = [];
  registration_tokens = [];
  clock_skew = 0;
}

abbrev pub otp_ttl : ℕ
otp_ttl = seconds 300

-- `int(time.time())`
abbrev pub whole_seconds : ℕ → ℕ
whole_seconds t = t / 1_000_000

-- The entry of a registered board; a completed registration adds the hardware id.
abbrev pub board_entry : String → String → Fields → Fields
board_entry board_id room_name rest =
    "device_id"
    ↪ text board_id ⨾ "classroom_id"
    ↪ text "room_4208" ⨾ "room_name"
    ↪ text room_name ⨾ "building"
    ↪ text "Main Building" ⨾ "department"
    ↪ text "Computer Science" ⨾ "capacity"
    ↪ num 60 ⨾ "is_registered"
    ↪ bool true ⨾ rest

module _ (env : Env) (b64 : String → String) where
  -- `generate_jwt`, for a lifetime of `expiry` seconds
  unfoldable pub generate_jwt : (ℕ → ℕ) → String → String → ℕ → String
  generate_jwt clock uuid board_id expiry =
      let header = b64 (env.dumps (obj ("alg" ↪ text "HS256" ⨾ "typ" ↪ text "JWT" ⨾ end))) in
      let payload = b64 (
        env.dumps (
          obj (
            "sub"
            ↪ text board_id ⨾ "iat"
            ↪ num (whole_seconds (clock 0)) ⨾ "exp"
            ↪ num (whole_seconds (clock 1) + expiry) ⨾ "jti"
            ↪ text uuid ⨾ end))) in
      let signature = env.hmac_sha256 "mock-secret" (header ^^ "." ^^ payload) in
      header ^^ "." ^^ payload ^^ "." ^^ signature

  -- `seed_defaults`
  unfoldable pub seed_defaults : (ℕ → ℕ) → (ℕ → String) → MockStore → MockStore
  unfolding generate_jwt
  seed_defaults clock random s = record s {
    boards =
        insert "IASB-4208"
          (board_entry "IASB-4208" "Room 4208" ("firmware_version" ↪ text "v5.4" ⨾ end)) s.boards;
    tokens =
        insert "IASB-4208"
          ("api_key"
            ↪ text "bk_live_mock_test_key_12345" ⨾ "access_token"
            ↪ text (generate_jwt clock (random 0) "IASB-4208" 900) ⨾ "refresh_token"
            ↪ text ("rt_" ^^ random 1) ⨾ end)
          s.tokens;
    otps = insert "IASB-4208" (record { otp = "123456"; expires_at = clock 2 + otp_ttl }) s.otps;
  }

  -- `startup`, on the new store of the module
  unfoldable pub startup : (ℕ → ℕ) → (ℕ → String) → MockStore
  unfolding seed_defaults
  startup clock random = seed_defaults clock random fresh
