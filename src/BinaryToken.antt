-- ===== src/BinaryToken.antt =====
-- The command-line check of binary tokens, iatt_validator.py. A byte is a number below 256, times
-- are seconds; what is printed on the way is left out.
pub mod Laws
pub mod Command
mod Tests
use Prim.Native.String
use Prim.Native.String.{count}
use intelli_attend_smart_boa.Base.{
  ℕ, zero, suc, ◌+◌, ◌-◌, ◌*◌, ◌/◌, ◌%◌, String, Bool, true, false, Option, none, some, List, [],
  ◌∷◌, ◌++◌, ◌==◌, ◌&&◌, ◌^^◌, leb, starts_with, length, take, drop, if◌then◌else◌,
}

-- `s[n:]`
abbrev pub slice_from : ℕ → String → String
slice_from zero s = s
slice_from (suc n) String.[] = ""
slice_from (suc n) (String.◌∷◌ c s) = slice_from n s

-- `while len(b64) % 4 != 0: b64 += "="`, for at most `fuel` rounds.
unfoldable pub pad : ℕ → String → String
pad zero b64 = b64
pad (suc fuel) b64 =
    let longer = pad fuel (b64 ^^ "=") in if count b64 % 4 == 0 then b64 else longer

-- `struct.unpack(">I", …)` of four bytes: the first is the highest.
abbrev pub unpack_from : ℕ → List ℕ → ℕ
unpack_from high [] = high
unpack_from high (b ∷ bytes) = unpack_from (high * 256 + b) bytes

abbrev pub unpack : List ℕ → ℕ
unpack bytes = unpack_from 0 bytes

-- `struct.pack(">I", n)` of a number below 2 ^ 32
abbrev pub pack : ℕ → List ℕ
pack n = n / 16777216 % 256 ∷ n / 65536 % 256 ∷ n / 256 % 256 ∷ n % 256 ∷ []

-- `bytes[start:end]`
abbrev pub slice : ℕ → ℕ → List ℕ → List ℕ
slice start end bytes = take (end - start) (drop start bytes)

pub record Token : Type 0 where
  pub sid_hash : List ℕ
  pub timestamp_sec : ℕ
  pub nonce : List ℕ
  pub provided_hmac : List ℕ

-- `hmac.compare_digest` of bytes
abbrev pub same_bytes : List ℕ → List ℕ → Bool
same_bytes [] [] = true
same_bytes [] (b ∷ bs) = false
same_bytes (a ∷ ds) [] = false
same_bytes (a ∷ ds) (b ∷ bs) = a == b && same_bytes ds bs

-- The messages of `validate`, with what is printed in them; the age is the first time of `stale`
-- less the second.
pub data Message : Type 0 where
  invalid_token : Message
  mismatch : (expected provided : List ℕ) → Message
  stale : (now timestamp : ℕ) → Message
  valid_and_fresh : Message

-- `base64.urlsafe_b64decode`, `none` where it raises, and the digest of HMAC-SHA256.
module _ (urlsafe_b64decode : String → Option (List ℕ)) (hmac : String → List ℕ → List ℕ) where
  -- `decode_v7_token`
  unfoldable pub decode_v7_token : String → Option Token
  unfolding pad
  decode_v7_token token =
      if starts_with token "IATT::"
      then elim (urlsafe_b64decode (pad 3 (slice_from 6 token))) [
        | none ↦ none
        | some raw ↦
            if length raw == 20
            then some (record {
              sid_hash = slice 0 6 raw;
              timestamp_sec = unpack (slice 6 10 raw);
              nonce = slice 10 12 raw;
              provided_hmac = slice 12 20 raw;
            })
            else none
      ]
      else none

  -- `0 <= age_sec <= self.GATE1_TTL_SECONDS`
  abbrev pub is_fresh : (now timestamp : ℕ) → Bool
  is_fresh now timestamp = leb timestamp now && leb now (timestamp + 300)

  -- `IATTValidator.validate`
  unfoldable pub validate : (now : ℕ) → (session_secret qr_string : String) → Bool × Message
  unfolding decode_v7_token
  validate now session_secret qr_string = elim (decode_v7_token qr_string) [
    | none ↦ (false, invalid_token)
    | some t ↦
        let header = t.sid_hash ++ pack t.timestamp_sec ++ t.nonce in
        let expected = take 8 (hmac session_secret header) in
        if same_bytes expected t.provided_hmac
        then (
          true,
          if is_fresh now t.timestamp_sec then valid_and_fresh else stale now t.timestamp_sec,
        )
        else (false, mismatch expected t.provided_hmac)
  ]
