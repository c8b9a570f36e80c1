-- ===== src/Utils/Powers.antt =====
-- `leading_zeros`, `log2` and `next_pow2` of src/utils.h.
use llfree_c.Base.{
  ℕ, zero, suc, ◌+◌, ◌-◌, ◌*◌, ◌^◌, ◌%◌, ◌≤◌, ◌<◌, ◌≡◌, refl, arith, some, true, false, ltb, leb,
  ◌==◌, Bool-cases, inl, inr,
}
use llfree_c.Base.Bits.{two_pow_le}
use llfree_c.Utils.{clz, leading_zeros, log2, next_pow2}

-- The highest one of a word.
clz_lem :
    (width v : ℕ)
    → 0 < v
    → v < 2 ^ width
    → (k : ℕ) × (clz width v + suc k ≡ width) × (2 ^ k ≤ v) × (v < 2 ^ suc k)
unfolding clz
clz_lem zero v some_bit h = ground (arith, some_bit, h)
clz_lem (suc w) v some_bit h = elim (Bool-cases (ltb v (2 ^ w))) [
  | inl below ↦
      let (k, sum, lo, hi) = clz_lem w v some_bit (ground (arith, below)) in
      (k, rw below (omega (arith, sum)), lo, hi)
  | inr above ↦ (w, rw above (omega arith), ground (arith, above), h)
]

-- For a value of at most `2 ^ 63`, `next_pow2` does not fail its assertion and gives the least
-- power of two that is not below the value, which is one of 64 bits.
pub next_pow2-least :
    (v : ℕ)
    → v ≤ 2 ^ 63
    → (k : ℕ) × (next_pow2 v ≡ some (2 ^ k))
      × (k < 64)
      × (v ≤ 2 ^ k)
      × ((j : ℕ) → v ≤ 2 ^ j → k ≤ j)
unfolding next_pow2 log2 leading_zeros
next_pow2-least v h = elim (Bool-cases (leb v 1)) [
  | inl small ↦ (0, rw small refl, omega arith, ground (arith, small), λ j e. omega arith)
  | inr large ↦
      let w = v - 1 in
      let (m, sum, lo, hi) = clz_lem 64 w (ground (arith, large)) (ground (arith, large)) in
      let positive : ltb 0 w ≡ true = ground (arith, large) in
      let some_bit : (w == 0) ≡ false = ground (arith, large) in
      let below : m < 63 = elim (Bool-cases (ltb m 63)) [
        | inl lt ↦ ground (arith, lt)
        | inr ge ↦
            let high = two_pow_le 63 m (ground (arith, ge)) in ground (arith, high, lo, h, large)
      ] in
      let exponent : 63 - clz 64 w ≡ m = omega (arith, sum) in
      let room = two_pow_le (m + 1) 63 (omega (arith, below)) in
      let next : m + 1 ≡ suc m = omega arith in
      let word : (1 * 2 ^ (m + 1)) % 2 ^ 64 ≡ 2 ^ (m + 1) = omega (arith, room) in
      let upper : w < 2 ^ (m + 1) = rw next hi in
      (
        m + 1,
        rw (large, some_bit, positive, exponent, word) refl,
        omega (arith, below),
        omega (arith, upper),
        λ j e. elim (Bool-cases (leb (m + 1) j)) [
          | inl reached ↦ ground (arith, reached)
          | inr short ↦
              let high = two_pow_le j m (ground (arith, short)) in
              ground (arith, high, lo, large, e)
        ],
      )
]
