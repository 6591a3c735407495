-- ===== src/Interceptors/Metrics/Laws.antt =====
-- What the collector holds after any sequence of requests.
use mathlib.Core.List.{append-nil, append_assoc}
use grpc_example.Common.{
  ℕ, ◌<◌, inl, inr, ◌+◌, ◌%◌, ◌^◌, String, ℤ, Bool, true, false, List, [], ◌∷◌, ◌++◌, ◌≡◌, refl, ap,
  arith, length, if◌then◌else◌, ◌==◌, string_eq, eq_iff, Bool-cases,
}
use grpc_example.Common.Assoc.{lookup, lookup-insert}
use grpc_example.Interceptors.{MetricsCollector}
use grpc_example.Interceptors.Metrics.{inc64, count_of, durations_of, record_request, reset}

-- A finished request: its method, its duration and whether it failed.
pub record Request : Type 0 where
  pub method : String
  pub duration : ℤ
  pub is_error : Bool

abbrev pub record_all : List Request → MetricsCollector → MetricsCollector
unfolding record_request
record_all [] m = m
record_all (r ∷ rs) m = record_all rs (record_request r.method r.duration r.is_error m)

-- The durations of a method's requests, in order, and the number of the failed ones.
abbrev pub durations : String → List Request → List ℤ
durations method [] = []
durations method (r ∷ rs) =
    let rest = durations method rs in if r.method == method then r.duration ∷ rest else rest

abbrev pub errors : List Request → ℕ
errors [] = 0
errors (r ∷ rs) = (if r.is_error then 1 else 0) + errors rs

durations_of-record_request :
    (method k : String) (d : ℤ) (is_error : Bool) (m : MetricsCollector)
    → durations_of k (record_request method d is_error m)
      ≡ durations_of k m ++ (if method == k then d ∷ [] else [])
unfolding record_request
durations_of-record_request method k d is_error m = elim (Bool-cases (method == k)) [
  | inl same ↦
      let e : method ≡ k = (eq_iff method k).0 same in
      rw (lookup-insert method k (durations_of method m ++ d ∷ []) m.request_durations, same, e)
        refl
  | inr differ ↦
      rw
        (
          lookup-insert method k (durations_of method m ++ d ∷ []) m.request_durations,
          differ,
          append-nil,
        )
        refl
]

count_of-record_request :
    (method k : String) (d : ℤ) (is_error : Bool) (m : MetricsCollector)
    → count_of k (record_request method d is_error m)
      ≡ (if method == k then inc64 (count_of k m) else count_of k m)
unfolding record_request
count_of-record_request method k d is_error m = elim (Bool-cases (method == k)) [
  | inl same ↦
      let e : method ≡ k = (eq_iff method k).0 same in
      rw (lookup-insert method k (inc64 (count_of method m)) m.method_counts, same, e) refl
  | inr differ ↦
      rw (lookup-insert method k (inc64 (count_of method m)) m.method_counts, differ) refl
]

record_all-durations :
    (k : String) (rs : List Request) (m : MetricsCollector)
    → durations_of k (record_all rs m) ≡ durations_of k m ++ durations k rs
unfolding record_request
record_all-durations k [] m = rw append-nil refl
record_all-durations k (r ∷ rs) m =
    rw
      (
        record_all-durations k rs (record_request r.method r.duration r.is_error m),
        durations_of-record_request r.method k r.duration r.is_error m,
        append_assoc,
      )
      (ap (λ l. durations_of k m ++ l) (split (r.method == k)))
  where
    split :
        (b : Bool)
        → (if b then r.duration ∷ [] else []) ++ durations k rs
          ≡ (if b then r.duration ∷ durations k rs else durations k rs)
    split true = refl
    split false = refl

record_all-count :
    (k : String) (rs : List Request) (m : MetricsCollector)
    → count_of k m < 2 ^ 64
    → count_of k (record_all rs m) ≡ (count_of k m + length (durations k rs)) % 2 ^ 64
unfolding record_request
record_all-count k [] m h = omega (arith, h)
record_all-count k (r ∷ rs) m h =
    let one = count_of-record_request r.method k r.duration r.is_error m in
    let more = record_all-count k rs (record_request r.method r.duration r.is_error m) in
    elim (Bool-cases (r.method == k)) [ inl same ↦ ground arith | inr differ ↦ ground arith ]

record_all-totals :
    (rs : List Request) (m : MetricsCollector)
    → m.total_requests < 2 ^ 64
    → m.total_errors < 2 ^ 64
    → ((record_all rs m).total_requests ≡ (m.total_requests + length rs) % 2 ^ 64)
      × ((record_all rs m).total_errors ≡ (m.total_errors + errors rs) % 2 ^ 64)
unfolding record_request
record_all-totals [] m h h' = (omega (arith, h), omega (arith, h'))
record_all-totals (r ∷ rs) m h h' =
    let more = record_all-totals rs (record_request r.method r.duration r.is_error m) in
    elim (Bool-cases r.is_error) [ inl wrong ↦ ground arith | inr right ↦ ground arith ]

-- After a reset and any sequence of requests: the durations kept for a method are those of its
-- requests in order, its count is their number, the total is the number of all requests and the
-- errors are the number of the failed ones; the counters modulo 2^64.
pub record_all-reset :
    (k : String) (rs : List Request) (m : MetricsCollector)
    → (durations_of k (record_all rs (reset m)) ≡ durations k rs)
      × (count_of k (record_all rs (reset m)) ≡ length (durations k rs) % 2 ^ 64)
      × ((record_all rs (reset m)).total_requests ≡ length rs % 2 ^ 64)
      × ((record_all rs (reset m)).total_errors ≡ errors rs % 2 ^ 64)
unfolding record_request reset lookup
record_all-reset k rs m =
    let totals = record_all-totals rs (reset m) (omega arith) (omega arith) in
    let counted = record_all-count k rs (reset m) (omega arith) in
    (
      record_all-durations k rs (reset m),
      omega (arith, counted),
      omega (arith, totals.0),
      omega (arith, totals.1),
    )
