-- ===== src/Base/Bits.antt =====
-- The native bit operations, read one binary digit at a time.
use Prim.Native.Nat.{
  ℕ, zero, suc, ◌+◌, ◌-◌, ◌*◌, ◌/◌, ◌%◌, ◌≤◌, ◌<◌, min, max, bit_and, bit_or, bit_xor, differ,
  digits, bitwise, ◌^◌, bit_and-bitwise, bit_or-bitwise, bit_xor-bitwise,
}
use mathlib.Core.Path.{◌≡◌, refl, ap, ◌∙◌}
use native.Mathlib.Omega.{arith}

-- Bit `k` of a word, as 0 or 1.
abbrev pub bit : ℕ → ℕ → ℕ
bit zero w = w % 2
bit (suc k) w = bit k (w / 2)

-- One step of the digit recursion, for an operation `f` on digits whose rule `z` for a first number that
-- has run out fits `f` at 0.
module _ (z : ℕ → ℕ) (f : ℕ → ℕ → ℕ) (tail : (w : ℕ) → z w ≡ z (w / 2) * 2 + f 0 (w % 2)) where
  one_more : (fuel v w : ℕ) → v ≤ fuel → digits z f (suc fuel) v w ≡ digits z f fuel v w
  one_more zero zero w h = refl
  one_more (suc fuel) zero w h = refl
  one_more zero (suc v) w h = absurd (omega arith)
  one_more (suc fuel) (suc v) w h =
      ap (λ r. r * 2 + f (suc v % 2) (w % 2)) (one_more fuel (suc v / 2) (w / 2) (omega arith))

  many_more : (more v w : ℕ) → digits z f (v + more) v w ≡ digits z f v v w
  many_more zero v w = ap (λ fuel. digits z f fuel v w) (omega arith)
  many_more (suc more) v w =
      ap (λ fuel. digits z f fuel v w) {y = suc (v + more)} (omega arith)
      ∙ one_more (v + more) v w (omega arith)
      ∙ many_more more v w

  bitwise_step : (v w : ℕ) → bitwise z f v w ≡ bitwise z f (v / 2) (w / 2) * 2 + f (v % 2) (w % 2)
  bitwise_step zero w = tail w
  bitwise_step (suc v) w =
      let split : v ≡ suc v / 2 + (v - suc v / 2) = omega arith in
      ap (λ r. r * 2 + f (suc v % 2) (w % 2))
        (ap (λ fuel. digits z f fuel (suc v / 2) (w / 2)) split
          ∙ many_more (v - suc v / 2) (suc v / 2) (w / 2))

pub bit_and_step : (a b : ℕ) → bit_and a b ≡ bit_and (a / 2) (b / 2) * 2 + min (a % 2) (b % 2)
bit_and_step a b = omega (
  arith,
  bit_and-bitwise a b,
  bit_and-bitwise (a / 2) (b / 2),
  bitwise_step (λ w. zero) min (λ w. omega arith) a b,
)

pub bit_or_step : (a b : ℕ) → bit_or a b ≡ bit_or (a / 2) (b / 2) * 2 + max (a % 2) (b % 2)
bit_or_step a b = omega (
  arith,
  bit_or-bitwise a b,
  bit_or-bitwise (a / 2) (b / 2),
  bitwise_step (λ w. w) max (λ w. omega arith) a b,
)

-- A bit of a conjunction and of a disjunction.
pub bit-bit_and : (k a b : ℕ) → bit k (bit_and a b) ≡ min (bit k a) (bit k b)
bit-bit_and zero a b = omega (arith, bit_and_step a b)
bit-bit_and (suc k) a b =
    let half : bit_and a b / 2 ≡ bit_and (a / 2) (b / 2) = omega (arith, bit_and_step a b) in
    rw half (bit-bit_and k (a / 2) (b / 2))

pub bit-bit_or : (k a b : ℕ) → bit k (bit_or a b) ≡ max (bit k a) (bit k b)
bit-bit_or zero a b = omega (arith, bit_or_step a b)
bit-bit_or (suc k) a b =
    let half : bit_or a b / 2 ≡ bit_or (a / 2) (b / 2) = omega (arith, bit_or_step a b) in
    rw half (bit-bit_or k (a / 2) (b / 2))

pub bit_xor_step : (a b : ℕ) → bit_xor a b ≡ bit_xor (a / 2) (b / 2) * 2 + differ (a % 2) (b % 2)
bit_xor_step a b = omega (
  arith,
  bit_xor-bitwise a b,
  bit_xor-bitwise (a / 2) (b / 2),
  bitwise_step (λ w. w) differ (λ w. omega arith) a b,
)

differ_zero : (a : ℕ) → differ a 0 ≡ a
differ_zero zero = refl
differ_zero (suc a) = refl

differ_one : (a : ℕ) → a < 2 → differ a 1 ≡ 1 - a
differ_one zero h = refl
differ_one (suc zero) h = refl
differ_one (suc (suc a)) h = absurd (omega arith)

bit_xor_zero_below : (n a : ℕ) → a ≤ n → bit_xor a 0 ≡ a
bit_xor_zero_below zero zero h = refl
bit_xor_zero_below zero (suc a) h = absurd (omega arith)
bit_xor_zero_below (suc n) a h =
    omega (arith, bit_xor_step a 0, bit_xor_zero_below n (a / 2) (omega arith), differ_zero (a % 2))

-- Numbers with an even and an odd last bit trade places.
pub bit_xor_one : (k : ℕ) → bit_xor k 1 ≡ k / 2 * 2 + (1 - k % 2)
bit_xor_one k = omega (
  arith,
  bit_xor_step k 1,
  bit_xor_zero_below (k / 2) (k / 2) (omega arith),
  differ_one (k % 2) (omega arith),
)

pub bit_xor_pow : (n k : ℕ) → bit_xor (k * 2 ^ n) (2 ^ n) ≡ bit_xor k 1 * 2 ^ n
bit_xor_pow zero k = let same : k * 1 ≡ k = omega arith in ap (λ a. bit_xor a 1) same ∙ omega arith
bit_xor_pow (suc n) k =
    let twice : 2 ^ suc n ≡ 2 ^ n * 2 = omega arith in
    let more : k * 2 ^ suc n ≡ k * 2 ^ n * 2 = rw twice (grind arith) in
    let left : k * 2 ^ suc n / 2 ≡ k * 2 ^ n = rw more (omega arith) in
    let right : 2 ^ suc n / 2 ≡ 2 ^ n = omega arith in
    let low : k * 2 ^ suc n % 2 ≡ 0 = rw more (omega arith) in
    let low' : 2 ^ suc n % 2 ≡ 0 = omega arith in
    bit_xor_step (k * 2 ^ suc n) (2 ^ suc n)
    ∙ rw (left, right, low, low', bit_xor_pow n k) (rw twice (grind arith))

bit_or_zero_below : (n a : ℕ) → a ≤ n → bit_or a 0 ≡ a
bit_or_zero_below zero zero h = refl
bit_or_zero_below zero (suc a) h = absurd (omega arith)
bit_or_zero_below (suc n) a h =
    omega (arith, bit_or_step a 0, bit_or_zero_below n (a / 2) (omega arith))

pub bit_or_zero : (a : ℕ) → bit_or a 0 ≡ a
bit_or_zero a = bit_or_zero_below a a (omega arith)

pub bit_or_odd : (a m : ℕ) → bit_or (a * 2 + 1) (m * 2) ≡ bit_or a m * 2 + 1
bit_or_odd a m =
    let left : (a * 2 + 1) / 2 ≡ a = omega arith in
    let right : m * 2 / 2 ≡ m = omega arith in
    let one : (a * 2 + 1) % 2 ≡ 1 = omega arith in
    let none : m * 2 % 2 ≡ 0 = omega arith in
    bit_or_step (a * 2 + 1) (m * 2) ∙ rw (left, right, one, none) refl

-- The digits of a multiple of a power of two and of a smaller number do not meet.
pub bit_or_pow : (n k m : ℕ) → m < 2 ^ n → bit_or (k * 2 ^ n) m ≡ k * 2 ^ n + m
bit_or_pow zero k m h =
    let none : m ≡ 0 = omega arith in rw none (bit_or_zero (k * 1) ∙ omega arith)
bit_or_pow (suc n) k m h =
    let twice : 2 ^ suc n ≡ 2 ^ n * 2 = omega arith in
    let more : k * 2 ^ suc n ≡ k * 2 ^ n * 2 = rw twice (grind arith) in
    let left : k * 2 ^ suc n / 2 ≡ k * 2 ^ n = rw more (omega arith) in
    let low : k * 2 ^ suc n % 2 ≡ 0 = rw more (omega arith) in
    let half : m / 2 < 2 ^ n = omega (arith, twice) in
    bit_or_step (k * 2 ^ suc n) m
    ∙ rw (left, low, bit_or_pow n k (m / 2) half) (omega (arith, more))
