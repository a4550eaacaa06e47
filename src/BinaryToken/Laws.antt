-- ===== src/BinaryToken/Laws.antt =====
-- That the padding ends, that packing undoes unpacking, and which tokens are accepted.
use Prim.Native.String.{count}
use text.Mathlib.TextLemmas.{length-append}
use intelli_attend_smart_boa.Base.{
  ℕ, zero, suc, ◌+◌, ◌*◌, ◌/◌, ◌%◌, ◌<◌, ◌≡◌, ◌↔◌, refl, sym, ap, ◌∙◌, String, true, Option, some,
  List, [], ◌∷◌, ◌++◌, ◌^^◌, starts_with, length, take, drop, arith, take-add, length-take,
  length-drop, take_all, Option-cases, inl, inr,
}
use intelli_attend_smart_boa.BinaryToken.{
  slice_from, pad, unpack, pack, slice, same_bytes, decode_v7_token, validate,
}

count-append_eq : (s : String) → count (s ^^ "=") ≡ suc (count s)
count-append_eq s = omega (arith, length-append s "=")

pad_done : (fuel : ℕ) (s : String) → count s % 4 ≡ 0 → pad fuel s ≡ s
unfolding pad
pad_done zero s h = refl
pad_done (suc fuel) s h = ground arith

-- The padding loop ends after at most three rounds, whatever the text: then the length is a
-- multiple of four, it has grown by less than four, and further rounds would change nothing.
pub pad_lem :
    (more : ℕ) (b64 : String)
    → (count (pad 3 b64) % 4 ≡ 0)
      × (pad (more + 3) b64 ≡ pad 3 b64)
      × (count (pad 3 b64) < count b64 + 4)
unfolding pad
pad_lem more b64 = ground (
  arith,
  count-append_eq b64,
  count-append_eq (b64 ^^ "="),
  count-append_eq ((b64 ^^ "=") ^^ "="),
  pad_done more (pad 3 b64),
)

same_bytes_iff : (xs ys : List ℕ) → (same_bytes xs ys ≡ true) ↔ (xs ≡ ys)
same_bytes_iff [] [] = ground arith
same_bytes_iff [] (y ∷ ys) = ground arith
same_bytes_iff (x ∷ xs) [] = ground arith
same_bytes_iff (x ∷ xs) (y ∷ ys) = ground (arith, same_bytes_iff xs ys)

-- Every byte is one.
abbrev pub AreBytes : List ℕ → Type 0
AreBytes [] = Unit
AreBytes (b ∷ bytes) = (b < 256) × AreBytes bytes

AreBytes-take : (n : ℕ) (xs : List ℕ) → AreBytes xs → AreBytes (take n xs)
AreBytes-take zero xs h = tt
AreBytes-take (suc n) [] h = tt
AreBytes-take (suc n) (x ∷ xs) (a, h) = (a, AreBytes-take n xs h)

AreBytes-drop : (n : ℕ) (xs : List ℕ) → AreBytes xs → AreBytes (drop n xs)
AreBytes-drop zero xs h = h
AreBytes-drop (suc n) [] h = tt
AreBytes-drop (suc n) (x ∷ xs) (a, h) = AreBytes-drop n xs h

byte_of : (n : ℕ) (b c : ℕ) → b < 256 → (n * 256 + b) % 256 ≡ b
byte_of n b c h = omega arith

pack-unpack : (xs : List ℕ) → length xs ≡ 4 → AreBytes xs → pack (unpack xs) ≡ xs
pack-unpack (a ∷ b ∷ c ∷ d ∷ []) h (p, (q, (r, (s, t)))) =
    let n = unpack (a ∷ b ∷ c ∷ d ∷ []) in
    let high : n / 16777216 % 256 ≡ a = omega arith in
    let second : n / 65536 % 256 ≡ b = omega arith in
    let third : n / 256 % 256 ≡ c = omega arith in
    let low : n % 256 ≡ d = omega arith in λ i. high i ∷ second i ∷ third i ∷ low i ∷ []
pack-unpack [] h bytes = absurd (omega arith)
pack-unpack (a ∷ []) h bytes = absurd (omega arith)
pack-unpack (a ∷ b ∷ []) h bytes = absurd (omega arith)
pack-unpack (a ∷ b ∷ c ∷ []) h bytes = absurd (omega arith)
pack-unpack (a ∷ b ∷ c ∷ d ∷ e ∷ rest) h bytes = absurd (omega arith)

-- The header that `validate` puts together from the parts of a token is the token's first bytes.
header-slices :
    (raw : List ℕ)
    → length raw ≡ 20
    → AreBytes raw
    → slice 0 6 raw ++ pack (unpack (slice 6 10 raw)) ++ slice 10 12 raw ≡ take 12 raw
header-slices raw long bytes =
    let four : length (slice 6 10 raw) ≡ 4 =
      length-take 4 (drop 6 raw) (omega (arith, length-drop 6 raw)) in
    let part : AreBytes (slice 6 10 raw) =
      AreBytes-take 4 (drop 6 raw) (AreBytes-drop 6 raw bytes) in
    rw (pack-unpack (slice 6 10 raw) four part)
      (ap (λ ys. ys ++ take 2 (drop 10 raw)) (sym (take-add 6 4 raw)) ∙ sym (take-add 10 2 raw))

module _ (urlsafe_b64decode : String → Option (List ℕ)) (hmac : String → List ℕ → List ℕ) where
  -- A text of the format, with the bytes that it decodes to.
  abbrev pub IsToken : String → List ℕ → Type 0
  IsToken token raw =
      (starts_with token "IATT::" ≡ true)
      × (urlsafe_b64decode (pad 3 (slice_from 6 token)) ≡ some raw)
      × (length raw ≡ 20)

  module _ (bytes : (s : String) (raw : List ℕ) → urlsafe_b64decode s ≡ some raw → AreBytes raw)
      (now : ℕ) (session_secret token : String) where
    -- The verdict on a token.
    validate-token :
        (raw : List ℕ)
        → IsToken token raw
        → (validate urlsafe_b64decode hmac now session_secret token).0
          ≡ same_bytes (take 8 (hmac session_secret (take 12 raw))) (drop 12 raw)
    unfolding validate decode_v7_token
    validate-token raw (marked, decoded, long) =
        let header = header-slices raw long (bytes _ raw decoded) in
        let tail : slice 12 20 raw ≡ drop 12 raw =
          take_all 8 (drop 12 raw) (omega (arith, length-drop 12 raw)) in
        ground arith

    accepted-IsToken :
        (validate urlsafe_b64decode hmac now session_secret token).0 ≡ true
        → (raw : List ℕ) × IsToken token raw
    unfolding validate decode_v7_token
    accepted-IsToken h = elim (Option-cases (urlsafe_b64decode (pad 3 (slice_from 6 token)))) [
      | inl e ↦ absurd (ground arith)
      | inr (raw, e) ↦ (raw, ground arith)
    ]

    -- Where base64 decodes to bytes, a text is accepted exactly if it is a token of twenty bytes of
    -- which the last eight are the first of the HMAC of the twelve others. The time in it does not
    -- matter: what is too old, or from the future, is accepted as well.
    pub validate_iff : ((validate urlsafe_b64decode hmac now session_secret token).0 ≡ true) ↔ (
        (raw : List ℕ) × IsToken token raw
        × (drop 12 raw ≡ take 8 (hmac session_secret (take 12 raw))))
    validate_iff = (
      λ h.
          let (raw, is_token) = accepted-IsToken h in
          (raw, is_token, sym ((same_bytes_iff _ _).0 (sym (validate-token raw is_token) ∙ h))),
      λ (raw, is_token, e). validate-token raw is_token ∙ (same_bytes_iff _ _).1 (sym e),
    )
