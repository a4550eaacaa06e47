-- ===== src/RateLimit/Window/Arrivals.antt =====
-- Arrivals in the order of time, and the bucket that the limiter trims.
use intelli_attend_smart_boa.Base.{
  ℕ, ◌≤◌, String, ◌≡◌, refl, Bool, true, List, [], ◌∷◌, ◌++◌, ◌&&◌, arith, ltb, same, same_refl,
  if◌then◌else◌, length, keep, count_where, Bool-cases, inl, inr,
}
use mathlib.Core.List.{append-nil}
use intelli_attend_smart_boa.Dict.{lookup-insert, lookup-erase}
use intelli_attend_smart_boa.RateLimit.{
  Limiter, bucket, recent, is_empty, trim, check, record_request, Arrival, arrive,
}

pub count_where-keep :
    {A : Type 0} (p q : A → Bool) (xs : List A)
    → ((x : A) → p x ≡ true → q x ≡ true)
    → count_where p (keep q xs) ≡ count_where p xs
count_where-keep p q [] h = refl
count_where-keep p q (x ∷ xs) h = ground (arith, h x, count_where-keep p q xs h)

pub count_where-le-length : {A : Type 0} (p : A → Bool) (xs : List A) → count_where p xs ≤ length xs
count_where-le-length p [] = omega arith
count_where-le-length p (x ∷ xs) = ground (arith, count_where-le-length p xs)

is_empty-nil : (ts : List ℕ) → is_empty ts ≡ true → ts ≡ []
is_empty-nil [] h = refl
is_empty-nil (t ∷ ts) h = absurd (ground arith)

pub bucket-trim :
    (key k : String) (now : ℕ) (l : Limiter)
    → bucket k (trim key now l)
      ≡ (if same key k then keep (recent l.window now) (bucket key l) else bucket k l)
unfolding trim
bucket-trim key k now l =
    let kept = keep (recent l.window now) (bucket key l) in
    ground
      (arith, is_empty-nil kept, lookup-insert key k kept l.buckets, lookup-erase key k l.buckets)

bucket-record_request :
    (key k : String) (now : ℕ) (l : Limiter)
    → bucket k (record_request key now l)
      ≡ (if same key k then bucket key l ++ now ∷ [] else bucket k l)
unfolding record_request
bucket-record_request key k now l =
    ground (arith, lookup-insert key k (bucket key l ++ now ∷ []) l.buckets)

-- The requests that were let through, latest first: their keys and the times recorded for them.
abbrev pub Log : Type 0
Log = List (String × ℕ)

-- A limiter that has served a list of arrivals in order, with the log of what it let through.
unfoldable pub serve : List Arrival → Limiter × Log → Limiter × Log
serve [] s = s
serve (a ∷ rest) (l, log) =
    let (l', allowed, remaining) = arrive a l in
    serve rest (l', if allowed then (a.key, a.recorded) ∷ log else log)

-- Time does not run backwards from `last` on.
abbrev pub InOrder : ℕ → List Arrival → Type 0
InOrder last [] = Unit
InOrder last (a ∷ rest) = (last ≤ a.checked) × (a.checked ≤ a.recorded) × InOrder a.recorded rest

abbrev pub last_time : ℕ → List Arrival → ℕ
last_time last [] = last
last_time last (a ∷ rest) = last_time a.recorded rest

-- The requests of a key that were let through within the window before an instant.
abbrev pub admitted : String → ℕ → ℕ → Log → ℕ
admitted k window now log = count_where (λ e. same e.0 k && recent window now e.1) log

-- What is left of a key's bucket when it is checked.
abbrev pub kept_of : Arrival → Limiter → List ℕ
kept_of a l = keep (recent l.window a.checked) (bucket a.key l)

pub arrive-allowed :
    (a : Arrival) (l : Limiter) → (arrive a l).1 ≡ ltb (length (kept_of a l)) l.max_requests
unfolding arrive check
arrive-allowed a l = rw (bucket-trim a.key a.key a.checked l) (ground (arith, same_refl a.key))

pub arrive-bucket :
    (a : Arrival) (l : Limiter) (k : String)
    → bucket k (arrive a l).0 ≡ (
        if same a.key k
        then kept_of a l ++ (if (arrive a l).1 then a.recorded ∷ [] else [])
        else bucket k l)
unfolding arrive check
arrive-bucket a l k =
    let l' = trim a.key a.checked l in
    let allowed = ltb (length (bucket a.key l')) l.max_requests in
    elim (Bool-cases allowed) [
      | inl e ↦ rw e (
          ground (
            arith,
            same_refl a.key,
            bucket-record_request a.key k a.recorded l',
            bucket-trim a.key a.key a.checked l,
            bucket-trim a.key k a.checked l,
          ))
      | inr e ↦ rw e (ground (arith, append-nil (kept_of a l), bucket-trim a.key k a.checked l))
    ]

pub arrive_fixed :
    (a : Arrival) (l : Limiter)
    → ((arrive a l).0.window ≡ l.window) × ((arrive a l).0.max_requests ≡ l.max_requests)
unfolding arrive check trim record_request
arrive_fixed a l = ground arith

pub recent_mono :
    (window now later t : ℕ)
    → now ≤ later
    → recent window later t ≡ true
    → recent window now t ≡ true
recent_mono window now later t h k = ground arith
