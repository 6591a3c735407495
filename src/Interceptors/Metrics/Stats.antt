-- ===== src/Interceptors/Metrics/Stats.antt =====
-- interceptors/metrics.go: `GetStats`. Go leaves the order of `range` over a map open: the order of
-- the report is the argument `visit`. The floating-point rate and the text of a duration are the
-- library's: `rate errors requests` is the quotient times 100, and `duration_text` is
-- `Duration.String`.
use grpc_example.Common.{
  ℕ, suc, ◌+◌, ◌-◌, ◌/◌, ◌%◌, ◌^◌, ◌<◌, String, ℤ, pos, negsuc, pos_part, sub_ℕ, ◌+ℤ◌, ◌≤ℤ◌, ◌&&◌,
  List, [], ◌∷◌, ◌≡◌, ap, arith, length, All, if◌then◌else◌, ltb, string_eq,
}
use grpc_example.Common.Assoc.{lookup}
use grpc_example.Interceptors.{MetricsCollector}
use grpc_example.Interceptors.Metrics.{durations_of, reset}
use grpc_example.Interceptors.Metrics.Laws.{Request, durations, record_all, record_all-reset}

-- An int64 sum: the integer that fits, modulo 2 ^ 64.
abbrev pub wrap64 : ℤ → ℤ
wrap64 (pos n) = if ltb (n % 2 ^ 64) (2 ^ 63) then pos (n % 2 ^ 64) else sub_ℕ (n % 2 ^ 64) (2 ^ 64)
wrap64 (negsuc n) =
    if ltb (n % 2 ^ 64) (2 ^ 63) then negsuc (n % 2 ^ 64) else pos (2 ^ 64 - 1 - n % 2 ^ 64)

unfoldable pub total_from : ℤ → List ℤ → ℤ
unfolding ◌+ℤ◌
total_from total [] = total
total_from total (d ∷ ds) = total_from (wrap64 (total +ℤ d)) ds

-- Go's division of an integer by a number truncates towards zero.
abbrev pub divided : ℤ → ℕ → ℤ
divided (pos n) k = pos (n / k)
divided (negsuc n) k = sub_ℕ 0 (suc n / k)

unfoldable pub average : List ℤ → ℤ
unfolding total_from
average ds = divided (total_from (pos 0) ds) (length ds)

pub record MethodStats : Type 0 where
  pub count : ℕ
  pub avg_duration : String

pub record Stats (F : Type 0) : Type 0 where
  pub total_requests : ℕ
  pub total_errors : ℕ
  pub error_rate : F
  pub methods : List (String × MethodStats)

module _ (duration_text : ℤ → String) where
  -- The methods with a duration.
  unfoldable pub method_stats : MetricsCollector → List (String × ℕ) → List (String × MethodStats)
  unfolding lookup average
  method_stats m [] = []
  method_stats m ((method, count) ∷ rest) =
      let later = method_stats m rest in
      let kept = durations_of method m in
      if ltb 0 (length kept)
      then (method, record { count = count; avg_duration = duration_text (average kept) }) ∷ later
      else later

  -- `totalRequests > 0` tests an int64.
  unfoldable pub get_stats :
      {F : Type 0}
      → F
      → (ℕ → ℕ → F)
      → (List (String × ℕ) → List (String × ℕ))
      → MetricsCollector
      → Stats F
  unfolding method_stats
  get_stats zero_rate rate visit m = record {
    total_requests = m.total_requests;
    total_errors = m.total_errors;
    error_rate =
        if ltb 0 m.total_requests && ltb m.total_requests (2 ^ 63)
        then rate m.total_errors m.total_requests
        else zero_rate;
    methods = method_stats m (visit m.method_counts);
  }

-- The exact sum.
abbrev pub sum : List ℤ → ℕ
sum [] = 0
sum (d ∷ ds) = pos_part d + sum ds

wrap64_lem : (t d : ℕ) → t + d < 2 ^ 63 → wrap64 (pos t +ℤ pos d) ≡ pos (t + d)
unfolding ◌+ℤ◌
wrap64_lem t d h = ground arith

total_from_lem :
    (t : ℕ) (ds : List ℤ)
    → All (λ d. pos 0 ≤ℤ d) ds
    → t + sum ds < 2 ^ 63
    → total_from (pos t) ds ≡ pos (t + sum ds)
unfolding total_from ◌+ℤ◌
total_from_lem t [] h fits = ap pos (omega arith)
total_from_lem t (pos d ∷ ds) h fits =
    rw (wrap64_lem t d (omega (arith, fits)), total_from_lem (t + d) ds h.1 (omega (arith, fits)))
      (ap pos (omega arith))
total_from_lem t (negsuc d ∷ ds) h fits = absurd (omega (arith, h.0))

average_lem :
    (ds : List ℤ)
    → All (λ d. pos 0 ≤ℤ d) ds
    → sum ds < 2 ^ 63
    → average ds ≡ pos (sum ds / length ds)
unfolding average
average_lem ds h fits =
    rw (total_from_lem 0 ds h (omega (arith, fits))) (ap (λ n. pos (n / length ds)) (omega arith))

-- After a reset and any sequence of requests, the average that the report computes for a method is
-- the exact sum of the durations of its requests divided by their number, rounded down, if no
-- duration is negative and the sum fits into an int64.
average-record_all :
    (k : String) (rs : List Request) (m : MetricsCollector)
    → All (λ d. pos 0 ≤ℤ d) (durations k rs)
    → sum (durations k rs) < 2 ^ 63
    → average (durations_of k (record_all rs (reset m)))
      ≡ pos (sum (durations k rs) / length (durations k rs))
average-record_all k rs m h fits =
    rw (record_all-reset k rs m).0 (average_lem (durations k rs) h fits)
