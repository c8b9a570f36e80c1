-- ===== src/Base/Bits/Split.antt =====
-- The bitwise operations split at any digit boundary.
use Prim.Native.Nat.{ℕ, zero, suc, ◌+◌, ◌*◌, ◌/◌, ◌%◌, ◌^◌, ◌<◌, min, max, bit_and, bit_or}
use mathlib.Core.Path.{◌≡◌, refl, ap}
use native.Mathlib.Nat.{pow-suc}
use native.Mathlib.Omega.{arith}
use llfree_c.Base.Bits.Step.{bit_and_step, bit_or_step}

pub two_pow_suc_mul : (k x : ℕ) → 2 ^ suc k * x ≡ 2 * (2 ^ k * x)
two_pow_suc_mul k x = omega (arith, ap (λ (t : ℕ). t * x) (pow-suc 2 k))

module _ (op c : ℕ → ℕ → ℕ) (step : (a b : ℕ) → op a b ≡ op (a / 2) (b / 2) * 2 + c (a % 2) (b % 2))
    (op_zero : op 0 0 ≡ 0) where
  split :
      (k a b x y : ℕ)
      → a < 2 ^ k
      → b < 2 ^ k
      → op (a + 2 ^ k * x) (b + 2 ^ k * y) ≡ op a b + 2 ^ k * op x y
  split zero a b x y h g =
      let a_zero : a ≡ 0 = omega arith in
      let b_zero : b ≡ 0 = omega arith in
      let x_eq : 0 + 2 ^ 0 * x ≡ x = omega arith in
      let y_eq : 0 + 2 ^ 0 * y ≡ y = omega arith in
      rw (a_zero, b_zero, x_eq, y_eq, op_zero) (omega arith)
  split (suc k) a b x y h g =
      let low =
        split k (a / 2) (b / 2) x y (omega (arith, pow-suc 2 k)) (omega (arith, pow-suc 2 k)) in
      let a_half : (a + 2 ^ suc k * x) / 2 ≡ a / 2 + 2 ^ k * x =
        omega (arith, two_pow_suc_mul k x) in
      let b_half : (b + 2 ^ suc k * y) / 2 ≡ b / 2 + 2 ^ k * y =
        omega (arith, two_pow_suc_mul k y) in
      let a_low : (a + 2 ^ suc k * x) % 2 ≡ a % 2 = omega (arith, two_pow_suc_mul k x) in
      let b_low : (b + 2 ^ suc k * y) % 2 ≡ b % 2 = omega (arith, two_pow_suc_mul k y) in
      rw (step (a + 2 ^ suc k * x) (b + 2 ^ suc k * y), a_half, b_half, a_low, b_low, low)
        (omega (arith, step a b, two_pow_suc_mul k (op x y)))

pub bit_and_split :
    (k a b x y : ℕ)
    → a < 2 ^ k
    → b < 2 ^ k
    → bit_and (a + 2 ^ k * x) (b + 2 ^ k * y) ≡ bit_and a b + 2 ^ k * bit_and x y
bit_and_split = split bit_and min bit_and_step refl

pub bit_or_split :
    (k a b x y : ℕ)
    → a < 2 ^ k
    → b < 2 ^ k
    → bit_or (a + 2 ^ k * x) (b + 2 ^ k * y) ≡ bit_or a b + 2 ^ k * bit_or x y
bit_or_split = split bit_or max bit_or_step refl

pub two_pow_add : (a b : ℕ) → 2 ^ (a + b) ≡ 2 ^ a * 2 ^ b
two_pow_add zero b = let width : 0 + b ≡ b = omega arith in rw width (omega arith)
two_pow_add (suc a) b =
    let width : suc a + b ≡ suc (a + b) = omega arith in
    rw width (omega (arith, pow-suc 2 (a + b), two_pow_add a b, two_pow_suc_mul a (2 ^ b)))
