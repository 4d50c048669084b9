-- ===== src/Base/Bits.antt =====
-- `bit_and` with the masks of the program, as arithmetic, from the law of its lowest digit.
use Prim.Native.Nat.{
  ℕ, zero, suc, ◌+◌, ◌-◌, ◌*◌, ◌/◌, ◌%◌, ◌^◌, ◌≤◌, ◌<◌, min, max, bit_and, bit_or, digits,
  bit_and-bitwise, bit_or-bitwise,
}
use mathlib.Core.Path.{◌≡◌, refl, ap}
use native.Mathlib.Omega.{arith}
use native.Mathlib.Nat.{
  pow-succ', one-le-pow, div-add-mod, div-div-eq-div-mul, mod-one, mul-one, one-mul, div-one,
}

abbrev conjunction : ℕ → ℕ → ℕ → ℕ
conjunction fuel a b = digits (λ _. zero) min fuel a b

conjunction_fuel : (n m a b : ℕ) → a ≤ n → a ≤ m → conjunction n a b ≡ conjunction m a b
conjunction_fuel zero zero a b p q = refl
conjunction_fuel zero (suc m) zero b p q = refl
conjunction_fuel zero (suc m) (suc a) b p q = absurd (omega arith)
conjunction_fuel (suc n) zero zero b p q = refl
conjunction_fuel (suc n) zero (suc a) b p q = absurd (omega arith)
conjunction_fuel (suc n) (suc m) zero b p q = refl
conjunction_fuel (suc n) (suc m) (suc a) b p q =
    omega (arith, conjunction_fuel n m (suc a / 2) (b / 2) (omega arith) (omega arith))

pub zero-bit_and : (mask : ℕ) → bit_and 0 mask ≡ 0
zero-bit_and mask = bit_and-bitwise 0 mask

-- One binary digit at a time.
pub bit_and_step :
    (word mask : ℕ)
    → bit_and word mask ≡ 2 * bit_and (word / 2) (mask / 2) + min (word % 2) (mask % 2)
bit_and_step zero mask = omega (arith, zero-bit_and mask, zero-bit_and (mask / 2))
bit_and_step (suc word) mask = omega (
  arith,
  bit_and-bitwise (suc word) mask,
  bit_and-bitwise (suc word / 2) (mask / 2),
  conjunction_fuel word (suc word / 2) (suc word / 2) (mask / 2) (omega arith) (omega arith),
)

bit_and-zero_below : (n a : ℕ) → a ≤ n → bit_and a 0 ≡ 0
bit_and-zero_below n zero h = zero-bit_and 0
bit_and-zero_below zero (suc a) h = absurd (omega arith)
bit_and-zero_below (suc n) (suc a) h =
    omega (arith, bit_and_step (suc a) 0, bit_and-zero_below n (suc a / 2) (omega arith))

pub bit_and-zero : (a : ℕ) → bit_and a 0 ≡ 0
bit_and-zero a = bit_and-zero_below a a (omega arith)

-- The remainder by `2 * p` is the lowest digit beside the remainder of the rest by `p`.
mod_double : (a p : ℕ) → a % (2 * p) ≡ 2 * (a / 2 % p) + a % 2
mod_double a p = omega (
  arith,
  div-add-mod (a / 2) p,
  div-add-mod a (2 * p),
  ap (λ (t : ℕ). p * t) (div-div-eq-div-mul a 2 p),
)

-- A mask of the low `k` bits is a remainder.
pub bit_and_low : (k a : ℕ) → bit_and a (2 ^ k - 1) ≡ a % 2 ^ k
bit_and_low zero a = omega (arith, bit_and-zero a, mod-one a)
bit_and_low (suc k) a =
    rw
      (
        pow-succ' 2 k,
        bit_and_step,
        low_half,
        low_digit,
        bit_and_low k (a / 2),
        mod_double a (2 ^ k),
      )
      (omega arith)
  where
    low_half : (2 * 2 ^ k - 1) / 2 ≡ 2 ^ k - 1
    low_half = omega (arith, one-le-pow k 2 (omega arith))

    low_digit : (2 * 2 ^ k - 1) % 2 ≡ 1
    low_digit = omega (arith, one-le-pow k 2 (omega arith))

-- A mask with `k` zeros below it looks at the quotient.
pub bit_and_shifted : (k a m : ℕ) → bit_and a (m * 2 ^ k) ≡ bit_and (a / 2 ^ k) m * 2 ^ k
bit_and_shifted zero a m = simp (mul-one, div-one)
bit_and_shifted (suc k) a m =
    rw (bit_and_step, half, digit, bit_and_shifted k (a / 2) m, div-div-eq-div-mul)
      (rw (← pow-succ' 2 k)
        (omega (arith, ap (λ (t : ℕ). bit_and (a / 2 ^ suc k) m * t) (pow-succ' 2 k))))
  where
    half : m * 2 ^ suc k / 2 ≡ m * 2 ^ k
    half = omega (arith, ap (λ (t : ℕ). m * t) (pow-succ' 2 k))

    digit : m * 2 ^ suc k % 2 ≡ 0
    digit = omega (arith, ap (λ (t : ℕ). m * t) (pow-succ' 2 k))

-- A single bit.
pub bit_and_bit : (k a : ℕ) → bit_and a (2 ^ k) ≡ a / 2 ^ k % 2 * 2 ^ k
bit_and_bit k a =
    rw (← one-mul (2 ^ k), bit_and_shifted k a 1, one-mul) (ap (λ (t : ℕ). t * 2 ^ k) lowest)
  where
    lowest : bit_and (a / 2 ^ k) 1 ≡ a / 2 ^ k % 2
    lowest = bit_and_low 1 (a / 2 ^ k)

abbrev disjunction : ℕ → ℕ → ℕ → ℕ
disjunction fuel a b = digits (λ n. n) max fuel a b

disjunction_fuel : (n m a b : ℕ) → a ≤ n → a ≤ m → disjunction n a b ≡ disjunction m a b
disjunction_fuel zero zero a b p q = refl
disjunction_fuel zero (suc m) zero b p q = refl
disjunction_fuel zero (suc m) (suc a) b p q = absurd (omega arith)
disjunction_fuel (suc n) zero zero b p q = refl
disjunction_fuel (suc n) zero (suc a) b p q = absurd (omega arith)
disjunction_fuel (suc n) (suc m) zero b p q = refl
disjunction_fuel (suc n) (suc m) (suc a) b p q =
    omega (arith, disjunction_fuel n m (suc a / 2) (b / 2) (omega arith) (omega arith))

zero-bit_or : (b : ℕ) → bit_or 0 b ≡ b
zero-bit_or b = bit_or-bitwise 0 b

bit_or_step : (a b : ℕ) → bit_or a b ≡ 2 * bit_or (a / 2) (b / 2) + max (a % 2) (b % 2)
bit_or_step zero b = omega (arith, zero-bit_or b, zero-bit_or (b / 2))
bit_or_step (suc a) b = omega (
  arith,
  bit_or-bitwise (suc a) b,
  bit_or-bitwise (suc a / 2) (b / 2),
  disjunction_fuel a (suc a / 2) (suc a / 2) (b / 2) (omega arith) (omega arith),
)

bit_or-zero_below : (n a : ℕ) → a ≤ n → bit_or a 0 ≡ a
bit_or-zero_below n zero h = zero-bit_or 0
bit_or-zero_below zero (suc a) h = absurd (omega arith)
bit_or-zero_below (suc n) (suc a) h =
    omega (arith, bit_or_step (suc a) 0, bit_or-zero_below n (suc a / 2) (omega arith))

-- `(high << k) | low` is a sum where `low` fits `k` bits.
pub bit_or_fields : (k high low : ℕ) → low < 2 ^ k → bit_or (high * 2 ^ k) low ≡ high * 2 ^ k + low
bit_or_fields zero high low fits = ground (arith, bit_or-zero_below (high * 1) (high * 1))
bit_or_fields (suc k) high low fits = omega (
  arith,
  bit_or_step (high * 2 ^ suc k) low,
  ap (λ (t : ℕ). bit_or t (low / 2)) half,
  digit,
  doubled,
  bit_or_fields k high (low / 2) (omega (arith, pow-succ' 2 k)),
)
  where
    doubled : high * 2 ^ suc k ≡ 2 * (high * 2 ^ k)
    doubled = omega (arith, ap (λ (t : ℕ). high * t) (pow-succ' 2 k))

    half : high * 2 ^ suc k / 2 ≡ high * 2 ^ k
    half = omega (arith, doubled)

    digit : high * 2 ^ suc k % 2 ≡ 0
    digit = omega (arith, doubled)
