-- ===== src/Bitfield/FirstZeros/Pairs.antt =====
-- The orders 0 and 1 of `first_zeros_aligned`, which search the complement of the word.
use Prim.Native.Nat.{bit_or}
use native.Mathlib.Nat.{pow-suc}
use mathlib.Core.Path.{ap₂}
use llfree_c.Base.{
  ℕ, zero, suc, ◌+◌, ◌-◌, ◌*◌, ◌/◌, ◌%◌, ◌^◌, ◌<◌, ◌≡◌, refl, ◌∙◌, arith, ◌==◌, if◌then◌else◌,
  Bool-cases, inl, inr,
}
use llfree_c.Base.Bits.{bit_or_split}
use llfree_c.Utils.{ctz}
use llfree_c.Utils.Words.{ctz-odd, ctz-shift}
use llfree_c.Bitfield.FirstZeros.Spec.{first_zero_digit}

-- The lowest zero bit of a word is the lowest one of its complement.
pub ctz-not : (n v : ℕ) → v < 2 ^ n → ctz n (2 ^ n - 1 - v) ≡ first_zero_digit 1 n v
unfolding ctz first_zero_digit
ctz-not zero v h = refl
ctz-not (suc n) v h =
    let half : (2 ^ suc n - 1 - v) / 2 ≡ 2 ^ n - 1 - v / 2 = omega (arith, pow-suc 2 n) in
    let low : (2 ^ suc n - 1 - v) % 2 ≡ 1 - v % 2 = omega (arith, pow-suc 2 n) in
    let ih = ctz-not n (v / 2) (omega (arith, pow-suc 2 n)) in rw (half, low, ih) (ground arith)

-- `n` pairs `10`.
unfoldable pub alternating : ℕ → ℕ
alternating zero = 0
alternating (suc n) = 2 + 4 * alternating n

-- One where both bits of a pair are clear.
unfoldable pub clear_pairs : ℕ → ℕ → ℕ
unfolding alternating
clear_pairs n v = 4 ^ n - 1 - bit_or (bit_or v (v / 2)) (alternating n)

-- The lowest pair of `(v | v >> 1) | 10`, from the pair `d` and the bit `b` above it.
pair :
    (d b : ℕ)
    → d < 4
    → b < 2
    → (bit_or d (d / 2 + 2 * b) < 2 ^ 2)
      × (bit_or (bit_or d (d / 2 + 2 * b)) 2 ≡ (if d == 0 then 2 else 3))
pair zero zero h g = (omega arith, refl)
pair zero (suc zero) h g = (omega arith, refl)
pair (suc zero) zero h g = (omega arith, refl)
pair (suc zero) (suc zero) h g = (omega arith, refl)
pair (suc (suc zero)) zero h g = (omega arith, refl)
pair (suc (suc zero)) (suc zero) h g = (omega arith, refl)
pair (suc (suc (suc zero))) zero h g = (omega arith, refl)
pair (suc (suc (suc zero))) (suc zero) h g = (omega arith, refl)
pair d b h g = absurd (omega arith)

joined :
    (n v : ℕ)
    → bit_or (bit_or v (v / 2)) (alternating (suc n))
      ≡ (if v % 4 == 0 then 2 else 3) + 4 * bit_or (bit_or (v / 4) (v / 4 / 2)) (alternating n)
unfolding alternating
joined n v =
    let d = v % 4 in
    let above = v / 4 in
    let (low_lt, low_eq) = pair d (above % 2) (omega arith) (omega arith) in
    let shifted : v / 2 ≡ (d / 2 + 2 * (above % 2)) + 2 ^ 2 * (above / 2) = omega arith in
    let parts : v ≡ d + 2 ^ 2 * above = omega arith in
    let first : bit_or v (v / 2)
        ≡ bit_or d (d / 2 + 2 * (above % 2)) + 2 ^ 2 * bit_or above (above / 2) =
      ap₂ bit_or parts shifted
      ∙ bit_or_split 2 d (d / 2 + 2 * (above % 2)) above (above / 2) (omega arith) (omega arith) in
    rw
      (
        first,
        bit_or_split 2 (bit_or d (d / 2 + 2 * (above % 2))) 2 (bit_or above (above / 2))
            (alternating n) low_lt (omega arith),
        low_eq,
      )
      refl

joined-lt : (n v : ℕ) → v < 4 ^ n → bit_or (bit_or v (v / 2)) (alternating n) < 4 ^ n
joined-lt zero v h =
    let none_left : v ≡ 0 = omega arith in unfold alternating in rw none_left (omega arith)
joined-lt (suc n) v h =
    ground (arith, joined n v, joined-lt n (v / 4) (omega (arith, pow-suc 4 n)), pow-suc 4 n)

clear_pairs-digit :
    (n v : ℕ)
    → v < 4 ^ suc n
    → clear_pairs (suc n) v ≡ (if v % 4 == 0 then 1 else 0) + 4 * clear_pairs n (v / 4)
unfolding clear_pairs
clear_pairs-digit n v h =
    ground (arith, joined n v, joined-lt n (v / 4) (omega (arith, pow-suc 4 n)), pow-suc 4 n)

-- The lowest clear pair of a word.
pub ctz-clear_pairs : (n v : ℕ) → v < 4 ^ n → ctz (n * 2) (clear_pairs n v) ≡ first_zero_digit 2 n v
unfolding first_zero_digit
ctz-clear_pairs zero v h = unfold ctz in refl
ctz-clear_pairs (suc n) v h =
    let digit = clear_pairs-digit n v h in
    elim (Bool-cases (v % 4 == 0)) [
      | inl empty ↦
          let width : suc n * 2 ≡ suc (suc (n * 2)) = omega arith in
          let odd : clear_pairs (suc n) v % 2 ≡ 1 = ground arith in
          rw (empty, width) (ctz-odd _ _ odd)
      | inr full ↦
          let width : suc n * 2 ≡ 2 + n * 2 = omega arith in
          let shifted : clear_pairs (suc n) v ≡ 2 ^ 2 * clear_pairs n (v / 4) = ground arith in
          rw
            (
              full,
              width,
              shifted,
              ctz-shift 2 (n * 2) (clear_pairs n (v / 4)),
              ctz-clear_pairs n (v / 4) (omega (arith, pow-suc 4 n)),
            )
            refl
    ]
