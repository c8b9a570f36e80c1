-- ===== src/Bitfield/Slots.antt =====
-- Setting an aligned run of clear bits in a word adds as many ones.
use native.Mathlib.Nat.{mod-lt, div-add-mod, lt_of_mul-lt-mul_left, mul-le-mul_left}
use llfree_c.Base.{ℕ, ◌+◌, ◌-◌, ◌*◌, ◌/◌, ◌%◌, ◌^◌, ◌≤◌, ◌<◌, ◌≡◌, refl, ap, ◌∙◌, arith}
use llfree_c.Base.Bits.{two_pow_pos, two_pow_add}
use llfree_c.Utils.{count_ones, popcount}
use llfree_c.Utils.Words.{popcount-split, popcount-zero, popcount-ones}
use llfree_c.Bitfield.FirstZeros.Spec.{pred-one}

-- A word with the run of `w` bits at `p` clear.
record Parts (w p v : ℕ) : Type 0 where
  pub lo : ℕ
  pub y : ℕ
  pub low : lo < 2 ^ p
  pub before : v ≡ lo + 2 ^ p * (0 + 2 ^ w * y)
  pub after : v + (2 ^ w - 1) * 2 ^ p ≡ lo + 2 ^ p * ((2 ^ w - 1) + 2 ^ w * y)

parts : (w p v : ℕ) → v / 2 ^ p % 2 ^ w ≡ 0 → Parts w p v
parts w p v clear =
    let y = v / 2 ^ p / 2 ^ w in
    let above : v / 2 ^ p ≡ 0 + 2 ^ w * y = omega (arith, div-add-mod (v / 2 ^ p) (2 ^ w)) in
    let scaled = ap (λ (t : ℕ). 2 ^ p * t) above in
    let whole : v ≡ v % 2 ^ p + 2 ^ p * (0 + 2 ^ w * y) = omega (arith, div-add-mod v (2 ^ p)) in
    record {
      lo = v % 2 ^ p;
      y = y;
      low = mod-lt v (two_pow_pos p);
      before = whole;
      after = omega arith;
    }

popcount-parts :
    (w p d lo y : ℕ)
    → p + w ≤ 64
    → lo < 2 ^ p
    → d < 2 ^ w
    → popcount 64 (lo + 2 ^ p * (d + 2 ^ w * y))
      ≡ popcount p lo + (popcount w d + popcount (64 - p - w) y)
popcount-parts w p d lo y room h g =
    let width : 64 ≡ p + (w + (64 - p - w)) = omega arith in
    ap (λ (n : ℕ). popcount n (lo + 2 ^ p * (d + 2 ^ w * y))) width
    ∙ rw
        (
          popcount-split p (w + (64 - p - w)) lo (d + 2 ^ w * y) h,
          popcount-split w (64 - p - w) d y g,
        )
        refl

-- The word has `w` ones more.
pub count_ones-set :
    (w p v : ℕ)
    → p + w ≤ 64
    → v / 2 ^ p % 2 ^ w ≡ 0
    → count_ones (v + (2 ^ w - 1) * 2 ^ p) ≡ count_ones v + w
unfolding count_ones
count_ones-set w p v room clear =
    let q = parts w p v clear in
    let ones_lt : 2 ^ w - 1 < 2 ^ w = omega (arith, two_pow_pos w) in
    let after =
      ap (popcount 64) q.after ∙ popcount-parts w p (2 ^ w - 1) q.lo q.y room q.low ones_lt in
    let before =
      ap (popcount 64) q.before ∙ popcount-parts w p 0 q.lo q.y room q.low (two_pow_pos w) in
    omega (arith, after, before, popcount-ones w, popcount-zero w)

-- The word stays one of 64 bits.
pub set-lt :
    (w p v : ℕ) → p + w ≤ 64 → v < 2 ^ 64 → v / 2 ^ p % 2 ^ w ≡ 0 → v + (2 ^ w - 1) * 2 ^ p < 2 ^ 64
set-lt w p v room h clear =
    let q = parts w p v clear in
    let block = 2 ^ p * 2 ^ w in
    let r = 64 - p - w in
    let width : p + (w + r) ≡ 64 = omega arith in
    let whole : block * 2 ^ r ≡ 2 ^ 64 = omega (
      arith,
      ap (λ (n : ℕ). 2 ^ n) width,
      two_pow_add p (w + r),
      ap (λ (t : ℕ). 2 ^ p * t) (two_pow_add w r),
    ) in
    let less : block * q.y < block * 2 ^ r = omega (arith, q.before) in
    let y_lt : q.y + 1 ≤ 2 ^ r = omega (arith, lt_of_mul-lt-mul_left block less) in
    let scaled : block * (q.y + 1) ≤ block * 2 ^ r = mul-le-mul_left block y_lt in
    let group : 2 ^ p * 2 ^ w ≡ 2 ^ p * (2 ^ w - 1) + 2 ^ p =
      omega (arith, ap (λ (t : ℕ). 2 ^ p * t) (pred-one w)) in
    omega (arith, q.after, q.low)
