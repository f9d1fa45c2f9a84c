-- ===== src/Prelude/Bits.antt =====
-- Laws of the native bit operations at variables. An operation is known by its lowest digit, and
-- a law for numbers of `k` digits goes by induction on `k`.
use Prim.Native.Nat.{ℕ, zero, suc, ◌+◌, ◌-◌, ◌*◌, ◌/◌, ◌%◌, ◌^◌, ◌≤◌, ◌<◌, min, max, differ}
use Prim.Native.Nat.{
  bit_and, bit_or, bit_xor, digits, bitwise, bit_and-bitwise, bit_or-bitwise, bit_xor-bitwise,
}
use native.Mathlib.Nat.{pow-suc, div-div-eq-div-mul}
use mathlib.Core.Path.{◌≡◌, refl, ap, ◌∙◌}
use native.Mathlib.Omega.{arith}

module _ (z : ℕ → ℕ) (f : ℕ → ℕ → ℕ) where
  -- A round more than the digits last changes nothing.
  digits_more : (n a b : ℕ) → a ≤ n → digits z f (suc n) a b ≡ digits z f n a b
  digits_more zero zero b h = refl
  digits_more zero (suc a) b h = absurd (omega arith)
  digits_more (suc n) zero b h = refl
  digits_more (suc n) (suc a) b h =
      ap (λ d. d * 2 + f (suc a % 2) (b % 2)) (digits_more n (suc a / 2) (b / 2) (omega arith))

  digits_down : (k n a b : ℕ) → a ≤ n → digits z f (k + n) a b ≡ digits z f n a b
  digits_down zero n a b h = ap (λ m. digits z f m a b) {y = n} (omega arith)
  digits_down (suc k) n a b h =
      ap (λ m. digits z f m a b) {y = suc (k + n)} (omega arith)
      ∙ digits_more (k + n) a b (omega arith)
      ∙ digits_down k n a b h

  bitwise_step :
      (a b : ℕ)
      → bitwise z f (suc a) b ≡ bitwise z f (suc a / 2) (b / 2) * 2 + f (suc a % 2) (b % 2)
  bitwise_step a b =
      ap (λ d. d * 2 + f (suc a % 2) (b % 2))
        (ap (λ m. digits z f m (suc a / 2) (b / 2)) {y = a - suc a / 2 + suc a / 2} (omega arith)
          ∙ digits_down (a - suc a / 2) (suc a / 2) (suc a / 2) (b / 2) (omega arith))

pub bit_and_step : (a b : ℕ) → bit_and a b ≡ bit_and (a / 2) (b / 2) * 2 + min (a % 2) (b % 2)
bit_and_step zero b = omega (arith, bit_and-bitwise 0 b, bit_and-bitwise 0 (b / 2))
bit_and_step (suc a) b = simp bit_and-bitwise (bitwise_step (λ y. 0) min a b)

pub bit_xor_step : (a b : ℕ) → bit_xor a b ≡ bit_xor (a / 2) (b / 2) * 2 + differ (a % 2) (b % 2)
bit_xor_step zero b = omega (arith, bit_xor-bitwise 0 b, bit_xor-bitwise 0 (b / 2))
bit_xor_step (suc a) b = simp bit_xor-bitwise (bitwise_step (λ y. y) differ a b)

differ_digit : (x y : ℕ) → x < 2 → y < 2 → differ x y ≡ (x + y) % 2
differ_digit zero y hx hy = omega arith
differ_digit (suc zero) zero hx hy = refl
differ_digit (suc zero) (suc zero) hx hy = refl
differ_digit (suc zero) (suc (suc y)) hx hy = absurd (omega arith)
differ_digit (suc (suc x)) y hx hy = absurd (omega arith)

-- The lowest digit of an exclusive or is that of the sum.
pub bit_xor_digit : (a b : ℕ) → bit_xor a b ≡ bit_xor (a / 2) (b / 2) * 2 + (a + b) % 2
bit_xor_digit a b =
    omega (arith, bit_xor_step a b, differ_digit (a % 2) (b % 2) (omega arith) (omega arith))

pub bit_xor-lt : (k a b : ℕ) → a < 2 ^ k → b < 2 ^ k → bit_xor a b < 2 ^ k
bit_xor-lt zero zero b ha hb = omega (arith, bit_xor-bitwise 0 b)
bit_xor-lt zero (suc a) b ha hb = absurd (omega arith)
bit_xor-lt (suc k) a b ha hb =
    let p : 2 ^ suc k ≡ 2 ^ k * 2 = pow-suc 2 k in
    omega (arith, bit_xor_digit a b, p, bit_xor-lt k (a / 2) (b / 2) (omega arith) (omega arith))

-- An exclusive or undoes itself.
pub bit_xor_cancel : (k a b : ℕ) → a < 2 ^ k → b < 2 ^ k → bit_xor (bit_xor a b) b ≡ a
bit_xor_cancel zero zero zero ha hb = refl
bit_xor_cancel zero zero (suc b) ha hb = absurd (omega arith)
bit_xor_cancel zero (suc a) b ha hb = absurd (omega arith)
bit_xor_cancel (suc k) a b ha hb =
    let p : 2 ^ suc k ≡ 2 ^ k * 2 = pow-suc 2 k in
    let top : bit_xor a b / 2 ≡ bit_xor (a / 2) (b / 2) = omega (arith, bit_xor_digit a b) in
    omega (
      arith,
      bit_xor_digit a b,
      bit_xor_digit (bit_xor a b) b,
      ap (λ t. bit_xor t (b / 2)) top,
      bit_xor_cancel k (a / 2) (b / 2) (omega arith) (omega arith),
    )

pub bit_and-zero : (k a : ℕ) → a ≤ k → bit_and a 0 ≡ 0
bit_and-zero k zero h = refl
bit_and-zero zero (suc a) h = absurd (omega arith)
bit_and-zero (suc k) (suc a) h =
    omega (arith, bit_and_step (suc a) 0, bit_and-zero k (suc a / 2) (omega arith))

pub bit_and_one : (a : ℕ) → bit_and a 1 ≡ a % 2
bit_and_one a = omega (arith, bit_and_step a 1, bit_and-zero (a / 2) (a / 2) (omega arith))

-- `& 0xff` keeps the low byte.
pub bit_and_byte : (a : ℕ) → bit_and a 255 ≡ a % 256
bit_and_byte a =
    let a2 = a / 2 in
    let a4 = a2 / 2 in
    let a8 = a4 / 2 in
    let low : bit_and a8 31 ≡ a8 % 32 = five a8 in
    omega (arith, bit_and_step a 255, bit_and_step a2 127, bit_and_step a4 63, low)
  where
    five : (b : ℕ) → bit_and b 31 ≡ b % 32
    five b =
        let b2 = b / 2 in
        let b4 = b2 / 2 in
        let b8 = b4 / 2 in
        omega (
          arith,
          bit_and_step b 31,
          bit_and_step b2 15,
          bit_and_step b4 7,
          bit_and_step b8 3,
          bit_and_one (b8 / 2),
        )

-- A mask of `k` ones keeps a number of `k` digits.
pub bit_and_ones : (k a : ℕ) → a < 2 ^ k → bit_and a (2 ^ k - 1) ≡ a
bit_and_ones zero zero h = refl
bit_and_ones zero (suc a) h = absurd (omega arith)
bit_and_ones (suc k) a h =
    let p : 2 ^ suc k ≡ 2 ^ k * 2 = pow-suc 2 k in
    let half : (2 ^ suc k - 1) / 2 ≡ 2 ^ k - 1 = omega arith in
    omega (
      arith,
      bit_and_step a (2 ^ suc k - 1),
      ap (bit_and (a / 2)) half,
      bit_and_ones k (a / 2) (omega arith),
    )

-- The digits of a mask below its lowest one are cleared.
pub bit_and_shift : (a m : ℕ) → bit_and a (m * 2) ≡ bit_and (a / 2) m * 2
bit_and_shift a m =
    let half : m * 2 / 2 ≡ m = omega arith in
    omega (arith, bit_and_step a (m * 2), ap (bit_and (a / 2)) half)

pub bit_and_shift_by : (k a m : ℕ) → bit_and a (m * 2 ^ k) ≡ bit_and (a / 2 ^ k) m * 2 ^ k
bit_and_shift_by zero a m =
    let one : 2 ^ 0 ≡ 1 = refl in
    let same : m * 2 ^ 0 ≡ m = omega arith in
    let whole : a / 2 ^ 0 ≡ a = omega arith in
    omega (arith, ap (bit_and a) same, ap (λ t. bit_and t m) whole)
bit_and_shift_by (suc k) a m =
    let p : 2 ^ suc k ≡ 2 ^ k * 2 = pow-suc 2 k in
    let half : m * 2 ^ suc k ≡ m * 2 ^ k * 2 = omega (arith, ap (λ (t : ℕ). m * t) p) in
    let quarter : a / 2 / 2 ^ k ≡ a / 2 ^ suc k =
      div-div-eq-div-mul a 2 (2 ^ k) ∙ ap (λ (t : ℕ). a / t) (omega (arith, p)) in
    ap (bit_and a) half
    ∙ bit_and_shift a (m * 2 ^ k)
    ∙ ap (λ t. t * 2) (bit_and_shift_by k (a / 2) m)
    ∙ omega (
      arith,
      ap (λ t. bit_and t m * 2 ^ k) quarter,
      ap (λ (t : ℕ). bit_and (a / 2 ^ suc k) m * t) p,
    )

pub ones_bit_and : (k b : ℕ) → b < 2 ^ k → bit_and (2 ^ k - 1) b ≡ b
ones_bit_and zero zero h = refl
ones_bit_and zero (suc b) h = absurd (omega arith)
ones_bit_and (suc k) b h =
    let p : 2 ^ suc k ≡ 2 ^ k * 2 = pow-suc 2 k in
    let half : (2 ^ suc k - 1) / 2 ≡ 2 ^ k - 1 = omega arith in
    omega (
      arith,
      bit_and_step (2 ^ suc k - 1) b,
      ap (λ t. bit_and t (b / 2)) half,
      ones_bit_and k (b / 2) (omega arith),
    )

pub zero_bit_and : (b : ℕ) → bit_and 0 b ≡ 0
zero_bit_and b = bit_and-bitwise 0 b

-- A highest digit that one number has and the other has not stays.
pub bit_xor_top : (k a b : ℕ) → a < 2 ^ k → 2 ^ k ≤ b → b < 2 ^ suc k → 2 ^ k ≤ bit_xor a b
bit_xor_top zero zero b ha hb top = omega (arith, bit_xor-bitwise 0 b)
bit_xor_top zero (suc a) b ha hb top = absurd (omega arith)
bit_xor_top (suc k) a b ha hb top =
    let p : 2 ^ suc k ≡ 2 ^ k * 2 = pow-suc 2 k in
    let q : 2 ^ suc (suc k) ≡ 2 ^ suc k * 2 = pow-suc 2 (suc k) in
    omega (
      arith,
      bit_xor_digit a b,
      bit_xor_top k (a / 2) (b / 2) (omega arith) (omega arith) (omega arith),
    )

pub bit_xor-zero : (k a : ℕ) → a ≤ k → bit_xor a 0 ≡ a
bit_xor-zero k zero h = refl
bit_xor-zero zero (suc a) h = absurd (omega arith)
bit_xor-zero (suc k) (suc a) h =
    omega (arith, bit_xor_digit (suc a) 0, bit_xor-zero k (suc a / 2) (omega arith))

pub bit_or_step : (a b : ℕ) → bit_or a b ≡ bit_or (a / 2) (b / 2) * 2 + max (a % 2) (b % 2)
bit_or_step zero b = omega (arith, bit_or-bitwise 0 b, bit_or-bitwise 0 (b / 2))
bit_or_step (suc a) b = simp bit_or-bitwise (bitwise_step (λ y. y) max a b)

pub bit_or-zero : (k a : ℕ) → a ≤ k → bit_or a 0 ≡ a
bit_or-zero k zero h = refl
bit_or-zero zero (suc a) h = absurd (omega arith)
bit_or-zero (suc k) (suc a) h =
    omega (arith, bit_or_step (suc a) 0, bit_or-zero k (suc a / 2) (omega arith))
