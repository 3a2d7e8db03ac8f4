-- ===== src/Prelude/Bits.antt =====
-- `bit_and` with a mask that is a row of ones, or ends in zeros.
use Prim.Native.Nat.{
  ℕ, zero, suc, ◌+◌, ◌-◌, ◌*◌, ◌/◌, ◌%◌, ◌^◌, ◌≤◌, ◌<◌, min, bit_and, digits, bit_and-bitwise,
}
use mathlib.Core.Path.{◌≡◌, refl, sym, ap, ◌∙◌}
use native.Mathlib.Nat.{
  pow-suc, div-div-eq-div-mul, mod-add-div, mul_comm, mod-eq_of_lt, div-lt_iff_lt-mul,
}
use native.Mathlib.Omega.{arith}

-- Fuel beyond the first operand changes nothing.
and_fuel : (n a m b : ℕ) → a ≤ n → a ≤ m → digits (λ _. 0) min n a b ≡ digits (λ _. 0) min m a b
and_fuel zero zero zero b p q = refl
and_fuel zero zero (suc m) b p q = refl
and_fuel (suc n) zero zero b p q = refl
and_fuel (suc n) zero (suc m) b p q = refl
and_fuel n (suc a) zero b p q = absurd (omega arith)
and_fuel zero (suc a) m b p q = absurd (omega arith)
and_fuel (suc n) (suc a) (suc m) b p q =
    omega (arith, and_fuel n (suc a / 2) m (b / 2) (omega arith) (omega arith))

-- The lowest binary digit of `a & b`, and the rest.
bit_and-digit : (a b : ℕ) → bit_and a b ≡ bit_and (a / 2) (b / 2) * 2 + min (a % 2) (b % 2)
bit_and-digit zero b = omega (arith, bit_and-bitwise 0 b, bit_and-bitwise (0 / 2) (b / 2))
bit_and-digit (suc a) b =
    let half = and_fuel a (suc a / 2) (suc a / 2) (b / 2) (omega arith) (omega arith) in
    omega (arith, half, bit_and-bitwise (suc a) b, bit_and-bitwise (suc a / 2) (b / 2))

bit_and-zero : (n a : ℕ) → a ≤ n → bit_and a 0 ≡ 0
bit_and-zero n zero h = omega (arith, bit_and-bitwise 0 0)
bit_and-zero zero (suc a) h = absurd (omega arith)
bit_and-zero (suc n) (suc a) h =
    omega (arith, bit_and-digit (suc a) 0, bit_and-zero n (suc a / 2) (omega arith))

pub two_pow_pos : (n : ℕ) → 0 < 2 ^ n
two_pow_pos zero = omega arith
two_pow_pos (suc n) = rw pow-suc (omega (arith, two_pow_pos n))

-- Halving takes the lowest digit off a remainder by a double.
mod-double : (a m : ℕ) → a % (m * 2) ≡ a / 2 % m * 2 + a % 2
mod-double a m =
    let q : a / 2 / m ≡ a / (m * 2) = div-div-eq-div-mul a 2 m ∙ ap (λ t. a / t) (mul_comm 2 m) in
    omega (arith, mod-add-div a (m * 2), mod-add-div (a / 2) m, ap (λ t. m * t) q)

-- A row of ones keeps the low digits.
bit_and-ones : (n a : ℕ) → bit_and a (2 ^ n - 1) ≡ a % 2 ^ n
bit_and-ones zero a = omega (arith, bit_and-zero a a (omega arith))
bit_and-ones (suc n) a =
    let p : 2 ^ suc n ≡ 2 ^ n * 2 = pow-suc 2 n in
    let half : (2 ^ suc n - 1) / 2 ≡ 2 ^ n - 1 = omega (arith, two_pow_pos n, p) in
    let odd : (2 ^ suc n - 1) % 2 ≡ 1 = omega (arith, two_pow_pos n, p) in
    let rest : bit_and (a / 2) ((2 ^ suc n - 1) / 2) ≡ a / 2 % 2 ^ n =
      rw half (bit_and-ones n (a / 2)) in
    bit_and-digit a (2 ^ suc n - 1)
    ∙ omega (arith, odd, rest, mod-double a (2 ^ n), ap (λ t. a % t) p)

-- A mask that ends in zeros clears that many digits.
bit_and-shifted : (k a m : ℕ) → bit_and a (m * 2 ^ k) ≡ bit_and (a / 2 ^ k) m * 2 ^ k
bit_and-shifted zero a m =
    let e : m * 2 ^ 0 ≡ m = omega arith in
    let f : a / 2 ^ 0 ≡ a = omega arith in rw (e, f) (omega arith)
bit_and-shifted (suc k) a m =
    let p : m * 2 ^ suc k ≡ m * 2 ^ k * 2 = omega (arith, ap (λ t. m * t) (pow-suc 2 k)) in
    let half : m * 2 ^ suc k / 2 ≡ m * 2 ^ k = omega (arith, p) in
    let even : m * 2 ^ suc k % 2 ≡ 0 = omega (arith, p) in
    let q : a / 2 / 2 ^ k ≡ a / 2 ^ suc k =
      div-div-eq-div-mul a 2 (2 ^ k) ∙ ap (λ t. a / t) (mul_comm 2 (2 ^ k) ∙ sym (pow-suc 2 k)) in
    let rest : bit_and (a / 2) (m * 2 ^ suc k / 2) ≡ bit_and (a / 2 ^ suc k) m * 2 ^ k =
      ap (bit_and (a / 2)) half ∙ bit_and-shifted k (a / 2) m ∙ ap (λ t. bit_and t m * 2 ^ k) q in
    bit_and-digit a (m * 2 ^ suc k)
    ∙ omega (arith, rest, even, ap (λ t. bit_and (a / 2 ^ suc k) m * t) (pow-suc 2 k))

-- `a & (ones << k)` rounds a number of `n + k` digits down to a multiple of `2 ^ k`.
pub bit_and-high :
    (n k a : ℕ) → a < 2 ^ n * 2 ^ k → bit_and a ((2 ^ n - 1) * 2 ^ k) ≡ a / 2 ^ k * 2 ^ k
bit_and-high n k a h =
    rw (bit_and-shifted, bit_and-ones)
      (ap (λ t. t * 2 ^ k) (mod-eq_of_lt ((div-lt_iff_lt-mul (two_pow_pos k)).1 h)))
