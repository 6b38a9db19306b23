-- ===== src/LoadTest.antt =====
-- bench/loadtest.go: what the load test makes of the times that it measured. The operations per
-- second, a float, are left out.
use Prim.Native.Nat.{◌+◌, ◌-◌, ◌*◌, ◌/◌, ◌%◌}
use vortex_kv_cache.Base.{
  ℕ, zero, suc, ◌^◌, ◌==◌, ltb, leb, if◌then◌else◌, Option, none, some, ◌&&◌, ◌||◌, List, [], ◌∷◌,
  length, get_elem?,
}
use vortex_kv_cache.Base.Int.{ℤ, pos, leb_ℤ, ◌+ℤ◌, wrap, div_ℤ}
use vortex_kv_cache.Store.{Outcome, panic, returns, ◌>>=◌}
use vortex_kv_cache.Server.Args.{high_bit}
pub mod Rounding
pub mod Sorting
pub mod Percentiles

pub record LatencyResult : Type 0 where
  pub min : ℤ
  pub p50 : ℤ
  pub p95 : ℤ
  pub p99 : ℤ
  pub p999 : ℤ
  pub max : ℤ
  pub avg : ℤ

unfoldable pub insert_sorted : ℤ → List ℤ → List ℤ
insert_sorted d [] = d ∷ []
insert_sorted d (x ∷ xs) =
    let rest = insert_sorted d xs in if leb_ℤ d x then d ∷ x ∷ xs else x ∷ rest

-- `sort.Slice` with `<`: the sorted list of the elements, of which there is one
unfoldable pub sort_durations : List ℤ → List ℤ
unfolding insert_sorted
sort_durations [] = []
sort_durations (d ∷ ds) = insert_sorted d (sort_durations ds)

-- the loop of the sum
unfoldable pub sum_from : ℤ → List ℤ → ℤ
unfolding ◌+ℤ◌ wrap
sum_from sum [] = sum
sum_from sum (d ∷ ds) = sum_from (wrap (sum +ℤ d)) ds

-- The float64 next to a number, which has 53 bits; of two as near, the one that is even.
unfoldable pub round_float : ℕ → ℕ
unfolding high_bit
round_float n =
    let unit = high_bit 128 n / 2 ^ 52 in
    let q = n / unit in
    let r = n % unit in
    if ltb n (2 ^ 53)
    then n
    else if ltb (2 * r) unit || ((2 * r == unit) && (q % 2 == 0))
    then q * unit
    else (q + 1) * unit

-- `int(float64(n) * c)`, where the float64 `c` is `c / 2^53`
unfoldable pub float_index : ℕ → ℕ → ℕ
unfolding round_float
float_index n c = round_float (round_float n * c) / 2 ^ 53

-- the constants 0.50, 0.95, 0.99 and 0.999 as float64
abbrev pub c50 : ℕ
c50 = 4_503_599_627_370_496

abbrev pub c95 : ℕ
c95 = 8_556_839_292_003_942

abbrev pub c99 : ℕ
c99 = 8_917_127_262_193_582

abbrev pub c999 : ℕ
c999 = 8_998_192_055_486_251

-- an element of a slice
abbrev pub at_index : List ℤ → ℕ → Outcome ℤ
at_index ds i = elim (get_elem? ds i) [ none ↦ panic | some d ↦ returns d ]

-- `calculateMetrics` on sorted times, at the indices of its percentiles
unfoldable pub metrics_at : List ℤ → ℕ → ℕ → ℕ → ℕ → Outcome LatencyResult
unfolding sum_from div_ℤ
metrics_at durations p50_index p95_index p99_index p999_index =
    let n = length durations in
    do
      p50 ← at_index durations p50_index
      p95 ← at_index durations p95_index
      p99 ← at_index durations p99_index
      p999 ← at_index durations (if leb n p999_index then n - 1 else p999_index)
      min ← at_index durations 0
      max ← at_index durations (n - 1)
      returns (record {
        min = min;
        p50 = p50;
        p95 = p95;
        p99 = p99;
        p999 = p999;
        max = max;
        avg = div_ℤ (sum_from (pos 0) durations) n;
      })

unfoldable pub sorted_metrics : List ℤ → Outcome LatencyResult
unfolding metrics_at float_index
sorted_metrics durations =
    let n = length durations in
    metrics_at durations (float_index n c50) (float_index n c95) (float_index n c99)
      (float_index n c999)

unfoldable pub calculate_metrics : List ℤ → Outcome LatencyResult
unfolding sort_durations sorted_metrics
calculate_metrics [] = returns (record {
  min = pos 0;
  p50 = pos 0;
  p95 = pos 0;
  p99 = pos 0;
  p999 = pos 0;
  max = pos 0;
  avg = pos 0;
})
calculate_metrics (d ∷ ds) = sorted_metrics (sort_durations (d ∷ ds))
