-- ===== src/LoadTest/Rounding.antt =====
-- bench/loadtest.go: the product of a number with a float64 constant, and how far it is rounded.
use Prim.Native.Nat.{◌+◌, ◌*◌, ◌/◌, ◌%◌}
use native.Mathlib.Nat.{pow-suc, mod-lt, div-add-mod', add-mul}
use vortex_kv_cache.Base.{
  ℕ, zero, suc, ◌≤◌, ◌<◌, ◌≡◌, ◌^◌, ◌==◌, ltb, if◌then◌else◌, Bool, true, false, ◌&&◌, ◌||◌, arith,
  Bool-cases, inl, inr,
}
use vortex_kv_cache.Server.Args.{high_bit}
use vortex_kv_cache.LoadTest.{round_float, float_index, c50, c95, c99, c999}

pow_pos : (k : ℕ) → 1 ≤ 2 ^ k
pow_pos zero = omega arith
pow_pos (suc k) = omega (arith, pow-suc 2 k, pow_pos k)

high_bit-le : (fuel n : ℕ) → 1 ≤ n → high_bit fuel n ≤ n
unfolding high_bit
high_bit-le zero n h = h
high_bit-le (suc fuel) n h = elim (Bool-cases (ltb n 2)) [
  | inl small ↦ rw (small, high_bit) h
  | inr large ↦
      let ih = high_bit-le fuel (n / 2) (ground arith) in rw (large, high_bit) (omega arith)
]

high_bit-pos : (fuel n : ℕ) → 1 ≤ high_bit fuel n
unfolding high_bit
high_bit-pos zero n = omega arith
high_bit-pos (suc fuel) n = elim (Bool-cases (ltb n 2)) [
  | inl small ↦ rw (small, high_bit) (omega arith)
  | inr large ↦ let ih = high_bit-pos fuel (n / 2) in rw (large, high_bit) (omega arith)
]

high_bit-ge : (k fuel n : ℕ) → k ≤ fuel → 2 ^ k ≤ n → 2 ^ k ≤ high_bit fuel n
unfolding high_bit
high_bit-ge zero fuel n le h = omega (arith, high_bit-pos fuel n)
high_bit-ge (suc k) zero n le h = absurd (omega arith)
high_bit-ge (suc k) (suc fuel) n le h =
    let double = pow-suc 2 k in
    let ih = high_bit-ge k fuel (n / 2) (omega arith) (omega (arith, double)) in
    elim (Bool-cases (ltb n 2)) [
      | inl small ↦ absurd (ground (arith, high_bit-pos k 0, double, pow_pos k))
      | inr large ↦ rw (large, high_bit) (omega (arith, double))
    ]

-- a number is rounded by less than its unit, which is at most its part of 2^52
choose :
    (b : Bool) (q unit r n : ℕ)
    → q * unit + r ≡ n
    → r < unit
    → (n ≤ (if b then q * unit else (q + 1) * unit) + unit)
      × ((if b then q * unit else (q + 1) * unit) ≤ n + unit)
choose true q unit r n e l = (omega arith, omega arith)
choose false q unit r n e l = let p = add-mul q 1 unit in (omega arith, omega arith)

round_float-near : (n : ℕ) → (n ≤ round_float n + n / 2 ^ 52) × (round_float n ≤ n + n / 2 ^ 52)
unfolding round_float
round_float-near n = elim (Bool-cases (ltb n (2 ^ 53))) [
  | inl small ↦ rw (small, round_float) (omega arith, omega arith)
  | inr large ↦
      let big : 2 ^ 53 ≤ n = ground arith in
      let low = high_bit-ge 53 128 n (omega arith) big in
      let high = high_bit-le 128 n (omega arith) in
      let unit = high_bit 128 n / 2 ^ 52 in
      let pos : 0 < unit = omega arith in
      let r = n % unit in
      let near =
        choose (ltb (2 * r) unit || ((2 * r == unit) && (n / unit % 2 == 0))) (n / unit) unit r n
          (div-add-mod' n unit) (mod-lt n pos) in
      rw (large, round_float) (omega (arith, near), omega (arith, near))
]

round_float-small : (n : ℕ) → n < 2 ^ 53 → round_float n ≡ n
unfolding round_float
round_float-small n h = let small : ltb n (2 ^ 53) ≡ true = ground arith in rw (small, round_float)

-- the four indices, in their order and within the bounds
pub float_index-order :
    (n : ℕ)
    → 1 ≤ n
    → n < 2 ^ 53
    → (float_index n c50 ≤ float_index n c95)
      × (float_index n c95 ≤ float_index n c99)
      × (float_index n c99 ≤ float_index n c999)
      × (float_index n c999 < n)
unfolding float_index
float_index-order n h k =
    let a = round_float-near (n * c50) in
    let b = round_float-near (n * c95) in
    let c = round_float-near (n * c99) in
    let d = round_float-near (n * c999) in
    rw (round_float-small n k)
      (omega (arith, a, b), omega (arith, b, c), omega (arith, c, d), omega (arith, d))
