-- ===== src/Utils/Align.antt =====
-- `align_down` and `align_up` of src/utils.h for powers of two.
use Prim.Native.Nat.{bit_and}
use mathlib.Core.Path.{ap₂}
use native.Mathlib.Nat.{mod-lt, div-add-mod, mod-eq_of_lt, div-lt_iff_lt-mul, mul-mod_right}
use llfree_c.Base.{
  ℕ, suc, ◌+◌, ◌-◌, ◌*◌, ◌/◌, ◌%◌, ◌^◌, ◌≤◌, ◌<◌, ◌≡◌, refl, ap, ◌∙◌, arith, some, true, ltb,
  ltb-true, ==-true,
}
use llfree_c.Base.Bits.{two_pow_pos, two_pow_add, bit_and_split, bit_and-zero, bit_and-ones}
use llfree_c.Utils.{align_down, align_up, trailing_zeros, not64, ctz}
use llfree_c.Utils.Words.{trailing_zeros-eq-ctz, ctz-shift, ctz-odd}

-- A power of two has as many zero bits as its exponent says.
pub trailing_zeros-two_pow : (k : ℕ) → k < 64 → trailing_zeros (2 ^ k) ≡ k
trailing_zeros-two_pow k h =
    let width : 64 ≡ k + suc (63 - k) = omega arith in
    let whole : 2 ^ k ≡ 2 ^ k * 1 = omega arith in
    let shifted : ctz 64 (2 ^ k) ≡ k + ctz (suc (63 - k)) 1 =
      ap₂ ctz width whole ∙ ctz-shift k (suc (63 - k)) 1 in
    omega (arith, trailing_zeros-eq-ctz (2 ^ k), shifted, ctz-odd (63 - k) 1 refl)

-- Clearing the low `k` bits.
bit_and-high : (k v : ℕ) → k < 64 → v < 2 ^ 64 → bit_and v (not64 (2 ^ k - 1)) ≡ v - v % 2 ^ k
bit_and-high k v h g =
    let lo = v % 2 ^ k in
    let hi = v / 2 ^ k in
    let width : k + (64 - k) ≡ 64 = omega arith in
    let whole : 2 ^ k * 2 ^ (64 - k) ≡ 2 ^ 64 =
      omega (arith, two_pow_add k (64 - k), ap (λ (t : ℕ). 2 ^ t) width) in
    let hi_lt : hi < 2 ^ (64 - k) = (div-lt_iff_lt-mul (two_pow_pos k)).1 (omega arith) in
    let parts : v ≡ lo + 2 ^ k * hi = omega (arith, div-add-mod v (2 ^ k)) in
    let ones : 2 ^ (64 - k) ≡ (2 ^ (64 - k) - 1) + 1 = omega (arith, two_pow_pos (64 - k)) in
    let scaled = ap (λ (t : ℕ). 2 ^ k * t) ones in
    let mask : not64 (2 ^ k - 1) ≡ 0 + 2 ^ k * (2 ^ (64 - k) - 1) = omega (arith, two_pow_pos k) in
    ap₂ bit_and parts mask
    ∙ bit_and_split k lo 0 hi (2 ^ (64 - k) - 1) (mod-lt v (two_pow_pos k)) (two_pow_pos k)
    ∙ rw (bit_and-zero lo, bit_and-ones (64 - k) hi hi_lt) (omega arith)

-- For a value of 64 bits and a power of two of 64 bits, `align_down` does not fail its assertion
-- and gives the value less its remainder by the power.
pub align_down_lem : (v k : ℕ) → k < 64 → v < 2 ^ 64 → align_down v (2 ^ k) ≡ some (v - v % 2 ^ k)
unfolding align_down
align_down_lem v k h g =
    let zeros = trailing_zeros-two_pow k h in
    let small : ltb k 64 ≡ true = ltb-true _ _ h in
    rw (zeros, small, ==-true (2 ^ k) (2 ^ k) refl, bit_and-high k v h g) refl

-- For a power of two of 64 bits and a value whose sum with it is at most `2 ^ 64`, `align_up` does
-- not fail its assertion and gives the least multiple of the power that is not below the value.
pub align_up_lem :
    (v k : ℕ)
    → k < 64
    → v + 2 ^ k ≤ 2 ^ 64
    → (u : ℕ) × (align_up v (2 ^ k) ≡ some u) × (u % 2 ^ k ≡ 0) × (v ≤ u) × (u < v + 2 ^ k)
unfolding align_up
align_up_lem v k h g =
    let s = v + 2 ^ k - 1 in
    let word : s % 2 ^ 64 ≡ s = mod-eq_of_lt (omega (arith, two_pow_pos k)) in
    let rest_lt = mod-lt s (two_pow_pos k) in
    let parts = div-add-mod s (2 ^ k) in
    let multiple : s - s % 2 ^ k ≡ 2 ^ k * (s / 2 ^ k) = omega arith in
    (
      s - s % 2 ^ k,
      rw word (align_down_lem s k h (omega (arith, two_pow_pos k))),
      rw multiple (mul-mod_right (2 ^ k) (s / 2 ^ k)),
      omega arith,
      omega (arith, two_pow_pos k),
    )
