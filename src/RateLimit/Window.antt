-- ===== src/RateLimit/Window.antt =====
-- The limiter admits at most `max_requests` requests of a key in any window.
mod Arrivals
unfoldable pub use Arrivals.*
use intelli_attend_smart_boa.Base.{
  ℕ, ◌≤◌, String, ◌≡◌, refl, Bool, true, List, [], ◌∷◌, ◌++◌, ◌&&◌, arith, ltb, same, same_iff,
  same_refl, if◌then◌else◌, length, keep, count_where, count_where-append, Bool-cases, inl, inr,
  ◌∙◌,
}
use mathlib.Core.List.{append-nil}
use intelli_attend_smart_boa.Dict.{lookup-insert, lookup-erase}
use intelli_attend_smart_boa.Models.{seconds}
use intelli_attend_smart_boa.RateLimit.{
  Limiter, bucket, recent, is_empty, trim, check, record_request, Arrival, arrive, empty_limiter,
}

module _ (m w : ℕ) where
  -- The buckets hold, for every instant from `last` on, what the log holds, and never too much.
  pub record Tracks (last : ℕ) (l : Limiter) (log : Log) : Type 0 where
    pub window : l.window ≡ w
    pub budget : l.max_requests ≡ m
    pub counted :
        (k : String) (now : ℕ)
        → last ≤ now
        → count_where (recent w now) (bucket k l) ≡ admitted k w now log
    pub bounded : (k : String) (now : ℕ) → last ≤ now → admitted k w now log ≤ m

  module _ (last : ℕ) (l : Limiter) (log : Log) (a : Arrival) (t : Tracks last l log)
      (early : last ≤ a.checked) (late : a.checked ≤ a.recorded) where
    abbrev log_after : Log
    log_after = if (arrive a l).1 then (a.key, a.recorded) ∷ log else log

    kept_counted :
        (now : ℕ)
        → a.recorded ≤ now
        → count_where (recent w now) (kept_of a l) ≡ admitted a.key w now log
    kept_counted now h = rw t.window (
        count_where-keep (recent w now) (recent w a.checked) (bucket a.key l)
          (λ x. recent_mono w a.checked now x (omega arith))
        ∙ t.counted a.key now (omega arith))

    counted_after :
        (k : String) (now : ℕ)
        → a.recorded ≤ now
        → count_where (recent w now) (bucket k (arrive a l).0) ≡ admitted k w now log_after
    counted_after k now h = rw (arrive-bucket a l k) (elim (Bool-cases (arrive a l).1) [
      | inl e ↦ rw e (
          ground (
            arith,
            same_iff a.key k,
            kept_counted now h,
            t.counted k now (omega arith),
            count_where-append (recent w now) (kept_of a l) (a.recorded ∷ []),
          ))
      | inr e ↦ rw e (
          ground (
            arith,
            same_iff a.key k,
            kept_counted now h,
            t.counted k now (omega arith),
            append-nil (kept_of a l),
          ))
    ])

    bounded_after : (k : String) (now : ℕ) → a.recorded ≤ now → admitted k w now log_after ≤ m
    bounded_after k now h = elim (Bool-cases (arrive a l).1) [
      | inl e ↦ rw e (
          ground (
            arith,
            same_iff a.key k,
            kept_counted now h,
            t.bounded k now (omega arith),
            t.budget,
            arrive-allowed a l,
            count_where-le-length (recent w now) (kept_of a l),
          ))
      | inr e ↦ rw e (t.bounded k now (omega arith))
    ]

    arrive-Tracks : Tracks a.recorded (arrive a l).0 log_after
    arrive-Tracks = record {
      window = (arrive_fixed a l).0 ∙ t.window;
      budget = (arrive_fixed a l).1 ∙ t.budget;
      counted = counted_after;
      bounded = bounded_after;
    }

  serve-Tracks :
      (arrivals : List Arrival) (last : ℕ) (l : Limiter) (log : Log)
      → Tracks last l log
      → InOrder last arrivals
      → let (l', log') = serve arrivals (l, log) in Tracks (last_time last arrivals) l' log'
  unfolding serve
  serve-Tracks [] last l log t h = t
  serve-Tracks (a ∷ rest) last l log t (early, late, h) =
      serve-Tracks rest a.recorded (arrive a l).0 (log_after last l log a t early late)
        (arrive-Tracks last l log a t early late) h

-- The rate limit. A limiter that starts empty and is asked in the order of time lets through, in
-- the window before any instant that is not earlier than the last request, at most its budget of
-- requests of each key; and the bucket that it keeps counts exactly those.
pub serve_limits :
    (m window_seconds : ℕ) (arrivals : List Arrival) (k : String) (now : ℕ)
    → InOrder 0 arrivals
    → last_time 0 arrivals ≤ now
    → let w = seconds window_seconds in
      let (l, log) = serve arrivals (empty_limiter m window_seconds, []) in
      (admitted k w now log ≤ m) × (count_where (recent w now) (bucket k l) ≡ admitted k w now log)
serve_limits m window_seconds arrivals k now order late =
    let w = seconds window_seconds in
    let start : Tracks m w 0 (empty_limiter m window_seconds) [] = record {
      window = refl;
      budget = refl;
      counted = λ k now h. refl;
      bounded = λ k now h. omega arith;
    } in
    let t = serve-Tracks m w arrivals 0 (empty_limiter m window_seconds) [] start order in
    (t.bounded k now late, t.counted k now late)
