-- ===== src/Base/Bits/Zero.antt =====
-- The bitwise operations against 0, 1 and a word of ones.
use Prim.Native.Nat.{
  ℕ, zero, suc, ◌+◌, ◌-◌, ◌*◌, ◌/◌, ◌%◌, ◌^◌, ◌≤◌, ◌<◌, bit_and, bit_or, bit_and-bitwise,
  bit_or-bitwise,
}
use mathlib.Core.Path.{◌≡◌, refl, sym, ap₂, ◌≡⟨◌⟩◌, ◌∎}
use native.Mathlib.Nat.{
  pow-suc, div-div-eq-div-mul, div-eq_of_lt, div-lt_iff_lt-mul, one-le-pow, mul-le-mul_left,
}
use native.Mathlib.Omega.{arith}
use llfree_c.Base.Bits.Step.{bit_and_step, bit_or_step}
use llfree_c.Base.Bits.Split.{bit_or_split, two_pow_add}

pub two_pow_pos : (k : ℕ) → 0 < 2 ^ k
two_pow_pos k = one-le-pow k 2 (omega arith)

pub zero-bit_and : (b : ℕ) → bit_and 0 b ≡ 0
zero-bit_and b = bit_and-bitwise 0 b

pub zero-bit_or : (b : ℕ) → bit_or 0 b ≡ b
zero-bit_or b = bit_or-bitwise 0 b

below : (n a : ℕ) → a ≤ n → (bit_and a 0 ≡ 0) × (bit_or a 0 ≡ a)
below n zero h = (refl, refl)
below zero (suc a) h = absurd (omega arith)
below (suc n) (suc a) h =
    omega (arith, bit_and_step (suc a) 0, bit_or_step (suc a) 0, below n (suc a / 2) (omega arith))

pub bit_and-zero : (a : ℕ) → bit_and a 0 ≡ 0
bit_and-zero a = (below a a (omega arith)).0

pub bit_or-zero : (a : ℕ) → bit_or a 0 ≡ a
bit_or-zero a = (below a a (omega arith)).1

pub bit_and-one : (a : ℕ) → bit_and a 1 ≡ a % 2
bit_and-one a = omega (arith, bit_and_step a 1, bit_and-zero (a / 2))

pub half_power : (k a : ℕ) → a / 2 ^ suc k ≡ a / 2 / 2 ^ k
half_power k a =
    let swapped : 2 ^ suc k ≡ 2 * 2 ^ k = omega (arith, pow-suc 2 k) in
    rw swapped (sym (div-div-eq-div-mul a 2 (2 ^ k)))

-- A shift to the right goes through `&`.
pub bit_and-div : (k a b : ℕ) → bit_and a b / 2 ^ k ≡ bit_and (a / 2 ^ k) (b / 2 ^ k)
bit_and-div zero a b =
    let a_one : a / 2 ^ 0 ≡ a = omega arith in
    let b_one : b / 2 ^ 0 ≡ b = omega arith in rw (a_one, b_one) (omega arith)
bit_and-div (suc k) a b =
    let halved : bit_and a b / 2 ≡ bit_and (a / 2) (b / 2) = omega (arith, bit_and_step a b) in
    rw (half_power k (bit_and a b), half_power k a, half_power k b, halved)
      (bit_and-div k (a / 2) (b / 2))

-- `v | ones << p` where the bits of `ones` are clear in `v`: nothing is carried.
pub bit_or_clear :
    (p w lo y ones : ℕ)
    → lo < 2 ^ p
    → ones < 2 ^ w
    → bit_or (lo + 2 ^ p * (2 ^ w * y)) (ones * 2 ^ p) ≡ lo + 2 ^ p * (ones + 2 ^ w * y)
bit_or_clear p w lo y ones h g =
    let upper : bit_or (2 ^ w * y) ones ≡ ones + 2 ^ w * y = joined in
    let shifted : ones * 2 ^ p ≡ 0 + 2 ^ p * ones = omega arith in
    rw (shifted, bit_or_split p lo 0 (2 ^ w * y) ones h (omega arith), bit_or-zero lo, upper)
  where
    joined : bit_or (2 ^ w * y) ones ≡ ones + 2 ^ w * y
    joined =
        let left : 2 ^ w * y ≡ 0 + 2 ^ w * y = omega arith in
        let right : ones ≡ ones + 2 ^ w * 0 = omega arith in
        bit_or (2 ^ w * y) ones
        ≡⟨ ap₂ bit_or left right ⟩ bit_or (0 + 2 ^ w * y) (ones + 2 ^ w * 0)
        ≡⟨ bit_or_split w 0 ones y 0 (omega arith) g ⟩ bit_or 0 ones + 2 ^ w * bit_or y 0
        ≡⟨ (rw (zero-bit_or, bit_or-zero)) ⟩ ones + 2 ^ w * y ∎

pub bit_and-lt : (k a b : ℕ) → a < 2 ^ k → bit_and a b < 2 ^ k
bit_and-lt k a b h =
    let none_above : bit_and a b / 2 ^ k ≡ 0 =
      rw (bit_and-div k a b, div-eq_of_lt h) (zero-bit_and (b / 2 ^ k)) in
    let few : bit_and a b / 2 ^ k < 1 = omega arith in
    let bound = (div-lt_iff_lt-mul (two_pow_pos k)).0 few in omega arith

pub two_pow_le : (a b : ℕ) → a ≤ b → 2 ^ a ≤ 2 ^ b
two_pow_le a b h =
    let split : b ≡ a + (b - a) = omega arith in
    rw (split, two_pow_add a (b - a))
      (grind
        (arith, two_pow_pos a, two_pow_pos (b - a), mul-le-mul_left (2 ^ a) (two_pow_pos (b - a))))

-- A shift by a sum is two shifts.
pub div_two_pow_add : (v a b : ℕ) → v / 2 ^ (a + b) ≡ v / 2 ^ a / 2 ^ b
div_two_pow_add v a b = rw (two_pow_add a b) (sym (div-div-eq-div-mul v (2 ^ a) (2 ^ b)))

-- A word of `w` bits against `w` ones.
pub bit_and-ones : (w d : ℕ) → d < 2 ^ w → bit_and d (2 ^ w - 1) ≡ d
bit_and-ones zero d h = let none_set : d ≡ 0 = omega arith in rw none_set refl
bit_and-ones (suc w) d h =
    let half : d / 2 < 2 ^ w = omega (arith, pow-suc 2 w) in
    let ones_half : (2 ^ suc w - 1) / 2 ≡ 2 ^ w - 1 = omega (arith, pow-suc 2 w, two_pow_pos w) in
    let ones_low : (2 ^ suc w - 1) % 2 ≡ 1 = omega (arith, pow-suc 2 w, two_pow_pos w) in
    rw (bit_and_step d (2 ^ suc w - 1), ones_half, ones_low, bit_and-ones w (d / 2) half)
      (omega arith)
