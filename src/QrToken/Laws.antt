-- ===== src/QrToken/Laws.antt =====
-- Which QR tokens are accepted.
use Prim.Native.Char.{Char}
use Prim.Native.String.append
use text.Mathlib.TextLemmas.{append_assoc}
use intelli_attend_smart_boa.Base.{
  ℕ, ◌+◌, ◌≤◌, ◌↔◌, second, split, same_iff, slice_to, Bool, Option-cases, inl, inr, String, ◌≡◌,
  refl, true, false, Option, some, [], ◌∷◌, arith, same, starts_with, ◌^^◌, ◌&&◌, ◌∙◌,
}
use intelli_attend_smart_boa.Env.{Env}
use intelli_attend_smart_boa.Json.{PyInt, natural, negative}
use intelli_attend_smart_boa.QrToken.{
  generate_token, is_colon, split_colons, is_stale, is_fresh, signature, check_parts,
  validate_qr_token, is_ascii,
}

-- A text without colons.
abbrev pub IsPlain : String → Type 0
IsPlain String.[] = Unit
IsPlain (String.◌∷◌ c s) = (is_colon c ≡ false) × IsPlain s

split_colons-plain : (s : String) → IsPlain s → split_colons false s ≡ s ∷ []
unfolding split_colons
split_colons-plain String.[] h = refl
split_colons-plain (String.◌∷◌ c s) (a, h) = rw (a, split_colons-plain s h)

cons-append : (c : Char) (s t : String) → String.◌∷◌ c s ^^ t ≡ String.◌∷◌ c (s ^^ t)
cons-append c s t = append.cons c s t

-- The separator in front of a text is cut off.
split_colons-separator : (t : String) → split_colons false ("::" ^^ t) ≡ "" ∷ split_colons false t
unfolding split_colons starts_with
split_colons-separator t =
    let colon : Char = ":" in
    let two : "::" ^^ t ≡ String.◌∷◌ colon (String.◌∷◌ colon t) =
      cons-append colon ":" t ∙ (rw (cons-append colon "" t, append.nil t)) in
    rw two

split_colons-append :
    (s t : String) → IsPlain s → split_colons false (s ^^ "::" ^^ t) ≡ s ∷ split_colons false t
unfolding split_colons
split_colons-append String.[] t h = rw (append.nil ("::" ^^ t)) (split_colons-separator t)
split_colons-append (String.◌∷◌ c s) t (a, h) =
    rw (cons-append c s ("::" ^^ t), split_colons) (rw (a, split_colons-append s t h))

starts_with-append : (p s : String) → starts_with (p ^^ s) p ≡ true
unfolding starts_with
starts_with-append String.[] s = refl
starts_with-append (String.◌∷◌ c p) s =
    rw (cons-append c p s, starts_with) (ground (arith, starts_with-append p s))

-- A time in milliseconds that is at most `max_age` before or after now; `negative n` is the number
-- -n - 1.
abbrev pub IsWithin : (now max_age : ℕ) → PyInt → Type 0
IsWithin now max_age (natural ts) = (now ≤ ts + max_age) × (ts ≤ now + max_age)
IsWithin now max_age (negative n) = now + n + 1 ≤ max_age

module _ (env : Env) (b64decode : String → Option String) (int : String → Option PyInt) where
  -- The answer to a token in the format of the boards, by the two tests behind the splitting.
  validate_parts :
      (now max_age : ℕ) (payload provided session_secret : String)
      → IsPlain payload
      → IsPlain provided
      → is_ascii provided ≡ true
      → validate_qr_token env b64decode int now max_age
          ("IATT::" ^^ payload ^^ "::" ^^ provided)
          session_secret
        ≡ some (
            same (signature env b64decode int session_secret payload) provided
            && is_fresh env b64decode int now max_age payload)
  unfolding validate_qr_token check_parts
  validate_parts now max_age payload provided session_secret h k ascii =
      let parts : split_colons false ("IATT::" ^^ payload ^^ "::" ^^ provided)
          ≡ "IATT" ∷ payload ∷ provided ∷ [] =
        (rw (← append_assoc "IATT" "::" (payload ^^ "::" ^^ provided)) at (
            split_colons-append "IATT" (payload ^^ "::" ^^ provided)
              (refl, (refl, (refl, (refl, tt)))))
          ∙ (rw (split_colons-append payload provided h, split_colons-plain provided k))) in
      rw (starts_with-append "IATT::" (payload ^^ "::" ^^ provided), parts) (ground arith)

  -- The payload decodes to a text whose second field is a number of milliseconds at most `max_age`
  -- away from now, before or after it.
  abbrev pub IsRecent : (now max_age : ℕ) → String → Type 0
  IsRecent now max_age payload =
      (decoded : String) × (timestamp : String) × (ts : PyInt) × (b64decode payload ≡ some decoded)
      × (second (split b'|' decoded) ≡ some timestamp)
      × (int timestamp ≡ some ts)
      × IsWithin now max_age ts

  is_stale_iff :
      (now max_age : ℕ) (ts : PyInt) → (is_stale now max_age ts ≡ false) ↔ IsWithin now max_age ts
  unfolding is_stale
  is_stale_iff now max_age (natural ts) = ((λ h. ground arith), (λ h. ground arith))
  is_stale_iff now max_age (negative n) = ((λ h. ground arith), (λ h. ground arith))

  is_fresh-IsRecent :
      (now max_age : ℕ) (payload : String)
      → is_fresh env b64decode int now max_age payload ≡ true
      → IsRecent now max_age payload
  unfolding is_fresh
  is_fresh-IsRecent now max_age payload h = elim (Option-cases (b64decode payload)) [
    | inl e ↦ absurd (ground arith)
    | inr (decoded, e) ↦ elim (Option-cases (second (split b'|' decoded))) [
      | inl f ↦ absurd (ground arith)
      | inr (timestamp, f) ↦ elim (Option-cases (int timestamp)) [
        | inl g ↦ absurd (ground arith)
        | inr (ts, g) ↦
            (decoded, timestamp, ts, e, f, g, (is_stale_iff now max_age ts).0 (ground arith))
      ]
    ]
  ]

  IsRecent-is_fresh :
      (now max_age : ℕ) (payload : String)
      → IsRecent now max_age payload
      → is_fresh env b64decode int now max_age payload ≡ true
  unfolding is_fresh
  IsRecent-is_fresh now max_age payload (decoded, timestamp, ts, e, f, g, within) =
      ground (arith, e, f, g, (is_stale_iff now max_age ts).1 within)

  -- A token in the format of the boards, with a payload and a signature without colons, the signature
  -- in ASCII, is answered, and it is accepted exactly when the signature is the first sixteen
  -- characters of the HMAC of the payload under the session's secret, and the second field of the
  -- decoded payload is a time at most `max_age` milliseconds before or after now.
  pub validate_signed :
      (now max_age : ℕ) (payload provided session_secret : String)
      → IsPlain payload
      → IsPlain provided
      → is_ascii provided ≡ true
      → let answer =
          validate_qr_token env b64decode int now max_age
            ("IATT::" ^^ payload ^^ "::" ^^ provided)
            session_secret in
        ((accepted : Bool) × (answer ≡ some accepted))
        × ((answer ≡ some true) ↔ (
            (provided ≡ slice_to 16 (env.hmac_sha256 session_secret payload))
            × IsRecent now max_age payload))
  validate_signed now max_age payload provided session_secret h k ascii =
      let digest : String = signature env b64decode int session_secret payload in
      let parts = validate_parts now max_age payload provided session_secret h k ascii in
      (
        (same digest provided && is_fresh env b64decode int now max_age payload, parts),
        (
          (λ accepted. (
            ground (arith, parts, accepted, same_iff digest provided),
            is_fresh-IsRecent now max_age payload (ground (arith, parts, accepted)),
          )),
          (λ (signed, recent). ground (
            arith,
            parts,
            same_iff digest provided,
            signed,
            IsRecent-is_fresh now max_age payload recent,
          )),
        ),
      )

  -- The tokens of `generate_token` are never accepted, since a hexadecimal digest does not start
  -- like a QR token.
  pub validate-generate_token :
      (now max_age ts_ms : ℕ) (session_id secret session_secret : String)
      → ((s : String) → starts_with (env.sha256 s) "IATT::" ≡ false)
      → validate_qr_token env b64decode int now max_age
          (generate_token env session_id secret ts_ms)
          session_secret
        ≡ some false
  unfolding validate_qr_token generate_token
  validate-generate_token now max_age ts_ms session_id secret session_secret hex = rw (hex _)
