-- ===== src/Utils/Words.antt =====
-- Laws of `trailing_zeros` and `count_ones` in src/utils.h.
use native.Mathlib.Nat.{pow-suc}
use llfree_c.Base.{◌-◌, ◌≤◌, ◌<◌, ℕ, zero, suc, ◌+◌, ◌*◌, ◌/◌, ◌%◌, ◌^◌, ◌≡◌, refl, ap, arith}
use llfree_c.Base.Bits.{two_pow_suc_mul, two_pow_pos}
use llfree_c.Utils.{ctz, trailing_zeros, popcount}

pub ctz-odd : (n v : ℕ) → v % 2 ≡ 1 → ctz (suc n) v ≡ 0
unfolding ctz
ctz-odd n v h = ground arith

ctz-even : (n v : ℕ) → v % 2 ≡ 0 → ctz (suc n) v ≡ suc (ctz n (v / 2))
unfolding ctz
ctz-even n v h = ground arith

-- A word that is shifted to the left has as many zero bits more.
pub ctz-shift : (k n v : ℕ) → ctz (k + n) (2 ^ k * v) ≡ k + ctz n v
ctz-shift zero n v =
    let width : 0 + n ≡ n = omega arith in
    let same : 2 ^ 0 * v ≡ v = omega arith in rw (width, same) (omega arith)
ctz-shift (suc k) n v =
    let width : suc k + n ≡ suc (k + n) = omega arith in
    let half : 2 ^ suc k * v / 2 ≡ 2 ^ k * v = omega (arith, two_pow_suc_mul k v) in
    let even : 2 ^ suc k * v % 2 ≡ 0 = omega (arith, two_pow_suc_mul k v) in
    rw (width, ctz-even (k + n) (2 ^ suc k * v) even, half) (omega (arith, ctz-shift k n v))

pub ctz-zero : (n : ℕ) → ctz n 0 ≡ n
unfolding ctz
ctz-zero zero = refl
ctz-zero (suc n) = ap suc (ctz-zero n)

-- The test for 0 is the count that the loop gives.
pub trailing_zeros-eq-ctz : (v : ℕ) → trailing_zeros v ≡ ctz 64 v
unfolding trailing_zeros
trailing_zeros-eq-ctz zero = omega (arith, ctz-zero 64)
trailing_zeros-eq-ctz (suc v) = ground arith

-- The ones of a word are those of its lower and of its upper part.
pub popcount-split :
    (k n a b : ℕ) → a < 2 ^ k → popcount (k + n) (a + 2 ^ k * b) ≡ popcount k a + popcount n b
unfolding popcount
popcount-split zero n a b h =
    let width : 0 + n ≡ n = omega arith in
    let none_below : a ≡ 0 = omega arith in
    let same : 0 + 2 ^ 0 * b ≡ b = omega arith in rw (none_below, width, same) (omega arith)
popcount-split (suc k) n a b h =
    let width : suc k + n ≡ suc (k + n) = omega arith in
    let half : (a + 2 ^ suc k * b) / 2 ≡ a / 2 + 2 ^ k * b = omega (arith, two_pow_suc_mul k b) in
    let low : (a + 2 ^ suc k * b) % 2 ≡ a % 2 = omega (arith, two_pow_suc_mul k b) in
    let ih = popcount-split k n (a / 2) b (omega (arith, pow-suc 2 k)) in
    rw (width, half, low, ih) (omega arith)

pub popcount-zero : (n : ℕ) → popcount n 0 ≡ 0
unfolding popcount
popcount-zero zero = refl
popcount-zero (suc n) = omega (arith, popcount-zero n)

pub popcount-ones : (n : ℕ) → popcount n (2 ^ n - 1) ≡ n
unfolding popcount
popcount-ones zero = refl
popcount-ones (suc n) =
    let half : (2 ^ suc n - 1) / 2 ≡ 2 ^ n - 1 = omega (arith, pow-suc 2 n, two_pow_pos n) in
    let low : (2 ^ suc n - 1) % 2 ≡ 1 = omega (arith, pow-suc 2 n, two_pow_pos n) in
    rw (half, low) (omega (arith, popcount-ones n))

pub popcount-le : (n v : ℕ) → popcount n v ≤ n
unfolding popcount
popcount-le zero v = omega arith
popcount-le (suc n) v = omega (arith, popcount-le n (v / 2))
