-- ===== src/LoadTest/Percentiles.antt =====
-- bench/loadtest.go: `calculateMetrics` reads the sorted times within their bounds, and in order.
use Prim.Native.Nat.{◌-◌}
use vortex_kv_cache.Base.{
  ℕ, ◌≤◌, ◌<◌, ◌^◌, ◌≡◌, false, leb, some, List, ◌∷◌, length, get_elem?, get_elem?-some,
  get_elem?-length, All-index, All, arith,
}
use vortex_kv_cache.Base.Int.{ℤ, ◌≤ℤ◌}
use vortex_kv_cache.Store.{Outcome, returns}
use vortex_kv_cache.LoadTest.{
  LatencyResult, at_index, metrics_at, sort_durations, sorted_metrics, calculate_metrics,
}
use vortex_kv_cache.LoadTest.Rounding.{float_index-order}
use vortex_kv_cache.LoadTest.Sorting.{IsSorted, sort-IsSorted, sort_All, sorted-get, length-sort}

-- A result whose percentiles are in order, between bounds of all the times.
pub data Measured (ds : List ℤ) : Outcome LatencyResult → Type 0 where
  measured :
      (r : LatencyResult)
      → (r.min ≤ℤ r.p50)
        × (r.p50 ≤ℤ r.p95)
        × (r.p95 ≤ℤ r.p99)
        × (r.p99 ≤ℤ r.p999)
        × (r.p999 ≤ℤ r.max)
      → All (λ d. (r.min ≤ℤ d) × (d ≤ℤ r.max)) ds
      → Measured ds (returns r)

-- every element of a sorted list is between its first and its last
between :
    (xs : List ℤ) (first last : ℤ)
    → IsSorted xs
    → get_elem? xs 0 ≡ some first
    → get_elem? xs (length xs - 1) ≡ some last
    → All (λ d. (first ≤ℤ d) × (d ≤ℤ last)) xs
between xs first last s e f = All-index _ xs (λ i d g. (
  sorted-get xs 0 i first d s (omega arith) e g,
  sorted-get xs i (length xs - 1) d last s (omega (arith, get_elem?-length xs i d g)) g f,
))

within : (n i : ℕ) → i < n → leb n i ≡ false
within n i h = ground arith

metrics_at-Measured :
    (xs : List ℤ) (i j k l : ℕ)
    → IsSorted xs
    → i ≤ j
    → j ≤ k
    → k ≤ l
    → l < length xs
    → Measured xs (metrics_at xs i j k l)
unfolding metrics_at
metrics_at-Measured xs i j k l sorted ij jk kl ln =
    let n = length xs in
    let (a, ea) = get_elem?-some xs i (omega arith) in
    let (b, eb) = get_elem?-some xs j (omega arith) in
    let (c, ec) = get_elem?-some xs k (omega arith) in
    let (e, ee) = get_elem?-some xs l ln in
    let (low, el) = get_elem?-some xs 0 (omega arith) in
    let (high, eh) = get_elem?-some xs (n - 1) (omega arith) in
    rw (ea, metrics_at, at_index, eb, ec, within n l ln, ee, el, eh)
      (measured _
        (
          sorted-get xs 0 i low a sorted (omega arith) el ea,
          sorted-get xs i j a b sorted ij ea eb,
          sorted-get xs j k b c sorted jk eb ec,
          sorted-get xs k l c e sorted kl ec ee,
          sorted-get xs l (n - 1) e high sorted (omega arith) ee eh,
        )
        (between xs low high sorted el eh))

sorted-Measured :
    (xs : List ℤ)
    → IsSorted xs
    → 1 ≤ length xs
    → length xs < 2 ^ 53
    → Measured xs (sorted_metrics xs)
unfolding sorted_metrics
sorted-Measured xs sorted h k =
    let (o50, o95, o99, o999) = float_index-order (length xs) h k in
    metrics_at-Measured xs _ _ _ _ sorted o50 o95 o99 o999

unsorted :
    (ds : List ℤ) (o : Outcome LatencyResult) → Measured (sort_durations ds) o → Measured ds o
unsorted ds o (measured r order all) = measured r order (sort_All _ ds all)

-- If there is a time at least, and there are fewer than 2^53, then the metrics are computed
-- without an index out of bounds, the least time, the percentiles 50, 95, 99 and 99.9 and the
-- greatest time are in this order, and every time is between the least and the greatest.
pub calculate_metrics-Measured :
    (d : ℤ) (ds : List ℤ)
    → length (d ∷ ds) < 2 ^ 53
    → Measured (d ∷ ds) (calculate_metrics (d ∷ ds))
unfolding calculate_metrics
calculate_metrics-Measured d ds h =
    let size = length-sort (d ∷ ds) in
    unsorted (d ∷ ds) _ (
      sorted-Measured (sort_durations (d ∷ ds)) (sort-IsSorted (d ∷ ds)) (omega arith)
        (omega arith))
