-- ===== src/Base/Bits.antt =====
-- Masks of whole words: what `&` and `|` do with 2 ^ k - 1 and with multiples of 2 ^ k.
use Prim.Native.Nat.{ℕ, zero, suc, ◌+◌, ◌-◌, ◌*◌, ◌/◌, ◌%◌, ◌^◌, ◌≤◌, ◌<◌, bit_and, bit_or}
use Prim.Native.Nat.{digits, bit_and-bitwise, bit_or-bitwise, min, max}
use native.Mathlib.Nat.{pow-succ', div-div-eq-div-mul, div-one, one-mul, add-zero}
use mathlib.Core.Path.{◌≡◌, refl, ◌∙◌, sym}
use native.Mathlib.Omega.{arith}

-- The count of digits does not matter once it is large enough, whatever the operation on digits.
module _ (z : ℕ → ℕ) (f : ℕ → ℕ → ℕ) where
  digits_count : (n m a b : ℕ) → a ≤ n → a ≤ m → digits z f n a b ≡ digits z f m a b
  digits_count zero zero a b p q = refl
  digits_count zero (suc m) zero b p q = refl
  digits_count zero (suc m) (suc a) b p q = absurd (omega arith)
  digits_count (suc n) zero zero b p q = refl
  digits_count (suc n) zero (suc a) b p q = absurd (omega arith)
  digits_count (suc n) (suc m) zero b p q = refl
  digits_count (suc n) (suc m) (suc a) b p q =
      omega (arith, digits_count n m (suc a / 2) (b / 2) (omega arith) (omega arith))

  -- One digit at a time, if running out of digits agrees with going on over zeros.
  digits_step :
      (a b : ℕ)
      → ((b : ℕ) → z b ≡ z (b / 2) * 2 + f 0 (b % 2))
      → digits z f a a b ≡ digits z f (a / 2) (a / 2) (b / 2) * 2 + f (a % 2) (b % 2)
  digits_step zero b h = h b
  digits_step (suc a) b h =
      omega (arith, digits_count a (suc a / 2) (suc a / 2) (b / 2) (omega arith) (omega arith))

bit_and_step : (a b : ℕ) → bit_and a b ≡ bit_and (a / 2) (b / 2) * 2 + min (a % 2) (b % 2)
bit_and_step a b = omega (
  arith,
  bit_and-bitwise a b,
  bit_and-bitwise (a / 2) (b / 2),
  digits_step (λ b. zero) min a b (λ b. omega arith),
)

bit_or_step : (a b : ℕ) → bit_or a b ≡ bit_or (a / 2) (b / 2) * 2 + max (a % 2) (b % 2)
bit_or_step a b = omega (
  arith,
  bit_or-bitwise a b,
  bit_or-bitwise (a / 2) (b / 2),
  digits_step (λ b. b) max a b (λ b. omega arith),
)

pub pow_pos : (n : ℕ) → 0 < 2 ^ n
pow_pos zero = omega arith
pow_pos (suc n) = omega (arith, pow_pos n)

pow_suc_mul : (k m : ℕ) → 2 ^ suc k * m ≡ 2 * (2 ^ k * m)
pow_suc_mul k m = rw (pow-succ' 2 k) (omega arith)

bit_or-zero_count : (n a : ℕ) → a ≤ n → bit_or a 0 ≡ a
bit_or-zero_count n zero h = refl
bit_or-zero_count zero (suc a) h = absurd (omega arith)
bit_or-zero_count (suc n) (suc a) h =
    omega (arith, bit_or_step (suc a) 0, bit_or-zero_count n (suc a / 2) (omega arith))

bit_or-zero : (a : ℕ) → bit_or a 0 ≡ a
bit_or-zero a = bit_or-zero_count a a (omega arith)

bit_and_double : (a q : ℕ) → bit_and a (2 * q) ≡ bit_and (a / 2) q * 2
bit_and_double a q =
    let e : 2 * q / 2 ≡ q = omega arith in
    let d : (2 * q) % 2 ≡ 0 = omega arith in
    let s : bit_and a (2 * q) ≡ bit_and (a / 2) q * 2 + min (a % 2) 0 =
      rw (e, d) at (bit_and_step a (2 * q)) in
    omega arith

bit_or_double : (q r : ℕ) → bit_or (2 * q) r ≡ bit_or q (r / 2) * 2 + r % 2
bit_or_double q r =
    let e : 2 * q / 2 ≡ q = omega arith in
    let d : (2 * q) % 2 ≡ 0 = omega arith in
    let s : bit_or (2 * q) r ≡ bit_or q (r / 2) * 2 + max 0 (r % 2) =
      rw (e, d) at (bit_or_step (2 * q) r) in
    omega arith

-- A mask whose lowest k bits are clear sees only what stands above them.
pub bit_and_high : (k a m : ℕ) → bit_and a (2 ^ k * m) ≡ 2 ^ k * bit_and (a / 2 ^ k) m
bit_and_high zero a m = rw (div-one, one-mul, one-mul)
bit_and_high (suc k) a m =
    let e : 2 ^ suc k * m ≡ 2 * (2 ^ k * m) = pow_suc_mul k m in
    let d : a / 2 / 2 ^ k ≡ a / 2 ^ suc k = rw (pow-succ' 2 k) (div-div-eq-div-mul a 2 (2 ^ k)) in
    rw (e, bit_and_double a (2 ^ k * m), bit_and_high k (a / 2) m, d)
      (omega (arith, pow_suc_mul k (bit_and (a / 2 ^ suc k) m)))

-- A mask of ones keeps a number that fits below it.
pub bit_and_ones : (n x : ℕ) → x < 2 ^ n → bit_and x (2 ^ n - 1) ≡ x
bit_and_ones zero zero h = refl
bit_and_ones zero (suc x) h = absurd (omega arith)
bit_and_ones (suc n) x h =
    let e : (2 ^ suc n - 1) / 2 ≡ 2 ^ n - 1 = omega (arith, pow-succ' 2 n) in
    let d : (2 ^ suc n - 1) % 2 ≡ 1 = omega (arith, pow-succ' 2 n, pow_pos n) in
    let small : x / 2 < 2 ^ n = omega (arith, pow-succ' 2 n) in
    rw (bit_and_step x (2 ^ suc n - 1))
      (rw (e, d) (rw (bit_and_ones n (x / 2) small) (omega arith)))

-- `|` of a multiple of 2 ^ k and a number below 2 ^ k is their sum.
pub bit_or_low : (k q r : ℕ) → r < 2 ^ k → bit_or (2 ^ k * q) r ≡ 2 ^ k * q + r
bit_or_low zero q zero h = rw one-mul (bit_or-zero q ∙ sym (add-zero q))
bit_or_low zero q (suc r) h = absurd (omega arith)
bit_or_low (suc k) q r h =
    let e : 2 ^ suc k * q ≡ 2 * (2 ^ k * q) = pow_suc_mul k q in
    let small : r / 2 < 2 ^ k = omega (arith, pow-succ' 2 k) in
    rw (e, bit_or_double (2 ^ k * q) r, bit_or_low k q (r / 2) small) (omega arith)
