-- ===== src/Base/Bits.antt =====
-- The bits of a mask: `n & (n - 1)` and `h & (2^k - 1)`, by recursion on the binary digits.
use Prim.Native.Nat.{
  ℕ, zero, suc, ◌+◌, ◌-◌, ◌*◌, ◌/◌, ◌%◌, ◌^◌, ◌≤◌, ◌<◌, min, bit_and, digits, bit_and-bitwise,
}
use mathlib.Core.Path.{◌≡◌, refl, ap}
use mathlib.Core.Logic.{◌⊎◌, inl, inr, ◌↔◌}
use vortex_kv_cache.Base.Tests.{◌==◌, Bool-cases}
use native.Mathlib.Nat.{pow-suc}
use native.Mathlib.Omega.{arith}

-- the digits of a conjunction do not depend on how many rounds are left over
enough_rounds :
    (m n a b : ℕ) → a ≤ m → a ≤ n → digits (λ b. zero) min m a b ≡ digits (λ b. zero) min n a b
enough_rounds zero zero a b h k = refl
enough_rounds zero (suc n) zero b h k = refl
enough_rounds zero (suc n) (suc a) b h k = absurd (omega arith)
enough_rounds (suc m) zero zero b h k = refl
enough_rounds (suc m) zero (suc a) b h k = absurd (omega arith)
enough_rounds (suc m) (suc n) zero b h k = refl
enough_rounds (suc m) (suc n) (suc a) b h k =
    omega (arith, enough_rounds m n (suc a / 2) (b / 2) (omega arith) (omega arith))

-- the lowest digit, and the rest
pub bit_and_digit : (a b : ℕ) → bit_and a b ≡ bit_and (a / 2) (b / 2) * 2 + min (a % 2) (b % 2)
bit_and_digit zero b = omega (arith, bit_and-bitwise 0 b, bit_and-bitwise 0 (b / 2))
bit_and_digit (suc a) b = omega (
  arith,
  bit_and-bitwise (suc a) b,
  bit_and-bitwise (suc a / 2) (b / 2),
  enough_rounds a (suc a / 2) (suc a / 2) (b / 2) (omega arith) (omega arith),
)

pub pow_pos : (k : ℕ) → 0 < 2 ^ k
pow_pos zero = omega arith
pow_pos (suc k) = omega (arith, pow-suc 2 k, pow_pos k)

bit_and-zero_below : (n a : ℕ) → a ≤ n → bit_and a 0 ≡ 0
bit_and-zero_below n zero h = refl
bit_and-zero_below zero (suc a) h = absurd (omega arith)
bit_and-zero_below (suc n) (suc a) h =
    omega (arith, bit_and_digit (suc a) 0, bit_and-zero_below n (suc a / 2) (omega arith))

mod_digit : (m h : ℕ) → 0 < m → h % (m * 2) ≡ h / 2 % m * 2 + h % 2
mod_digit m h p = grind arith

-- A mask of `k` ones takes the remainder.
pub bit_and-mask : (k h : ℕ) → bit_and h (2 ^ k - 1) ≡ h % 2 ^ k
bit_and-mask zero h = omega (arith, bit_and-zero_below h h (omega arith))
bit_and-mask (suc k) h =
    let m = 2 ^ k in
    let e : (2 ^ suc k - 1) / 2 ≡ m - 1 = omega (arith, pow-suc 2 k, pow_pos k) in
    let f : (2 ^ suc k - 1) % 2 ≡ 1 = omega (arith, pow-suc 2 k, pow_pos k) in
    let d = bit_and_digit h (2 ^ suc k - 1) in
    let ih = bit_and-mask k (h / 2) in
    omega
      (arith, rw (e, f) at d, ih, mod_digit m h (pow_pos k), ap (λ (t : ℕ). h % t) (pow-suc 2 k))

bit_and_self : (n a : ℕ) → a ≤ n → bit_and a a ≡ a
bit_and_self n zero h = refl
bit_and_self zero (suc a) h = absurd (omega arith)
bit_and_self (suc n) (suc a) h =
    omega (arith, bit_and_digit (suc a) (suc a), bit_and_self n (suc a / 2) (omega arith))

-- `n & (n - 1)` is 0 exactly at the powers of two.
even_step : (m : ℕ) → 0 < m → bit_and (m * 2) (m * 2 - 1) ≡ bit_and m (m - 1) * 2
even_step m h =
    let e : m * 2 / 2 ≡ m = omega arith in
    let f : (m * 2 - 1) / 2 ≡ m - 1 = omega arith in
    omega (arith, rw (e, f) at (bit_and_digit (m * 2) (m * 2 - 1)))

odd_step : (m : ℕ) → bit_and (m * 2 + 1) (m * 2 + 1 - 1) ≡ m * 2
odd_step m =
    let e : (m * 2 + 1) / 2 ≡ m = omega arith in
    let f : (m * 2 + 1 - 1) / 2 ≡ m = omega arith in
    omega (
      arith,
      rw (e, f) at (bit_and_digit (m * 2 + 1) (m * 2 + 1 - 1)),
      bit_and_self m m (omega arith),
    )

parity : (n : ℕ) → ((m : ℕ) × (n ≡ m * 2)) ⊎ ((m : ℕ) × (n ≡ m * 2 + 1))
parity n = elim (Bool-cases (n % 2 == 0)) [
  | inl even ↦ inl (n / 2, ground arith)
  | inr odd ↦ inr (n / 2, ground arith)
]

power_of_mask : (fuel n : ℕ) → 0 < n → n ≤ fuel → bit_and n (n - 1) ≡ 0 → (k : ℕ) × (n ≡ 2 ^ k)
power_of_mask zero n p q h = absurd (omega arith)
power_of_mask (suc fuel) n p q h = elim (parity n) [
  | inl (m, even) ↦
      let e = rw even at h in
      let (k, is) =
        power_of_mask fuel m (omega arith) (omega arith)
          (omega (arith, e, even_step m (omega arith))) in
      (suc k, omega (arith, even, is, pow-suc 2 k))
  | inr (m, odd) ↦ let e = rw odd at h in (0, omega (arith, odd, e, odd_step m))
]

pub mask_of_power : (k : ℕ) → bit_and (2 ^ k) (2 ^ k - 1) ≡ 0
mask_of_power zero = refl
mask_of_power (suc k) = rw pow-suc (omega (arith, even_step (2 ^ k) (pow_pos k), mask_of_power k))

pub power_iff : (n : ℕ) → 0 < n → (bit_and n (n - 1) ≡ 0) ↔ ((k : ℕ) × (n ≡ 2 ^ k))
power_iff n p = (power_of_mask n n p (omega arith), λ h. let (k, e) = h in rw e (mask_of_power k))
