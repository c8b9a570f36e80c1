-- ===== src/Bitfield/FirstZeros/Marks.antt =====
-- The subtraction marks the first zero digit: `((v - mask) & ~v) >> (w - 1) & mask`, for digits of
-- any width `w = k + 1` and any number of digits. A borrow starts at a zero digit only, so the
-- marks below the first zero digit are right.
use Prim.Native.Nat.{bit_and}
use native.Mathlib.Nat.{
  pow-suc, add-mul-div_left, mul-le-mul_left, lt_of_mul-lt-mul_left, pow-zero, div-eq_of_lt, mod-lt,
  div-add-mod, div-lt_iff_lt-mul,
}
use llfree_c.Base.{
  ℕ, zero, suc, ◌+◌, ◌-◌, ◌*◌, ◌/◌, ◌%◌, ◌^◌, ◌≤◌, ◌<◌, ◌≡◌, ◌≢◌, refl, ap, arith, leb, ◌==◌,
  if◌then◌else◌, Bool-cases, inl, inr, leb-true, true, false,
}
use llfree_c.Base.Bits.{
  bit_and_split, bit_and-zero, zero-bit_and, bit_and-one, bit_and-div, bit_and-lt, two_pow_pos,
  two_pow_suc_mul,
}
use llfree_c.Utils.{ctz}
use llfree_c.Utils.Words.{ctz-odd, ctz-shift}
use llfree_c.Bitfield.FirstZeros.Spec.{first_zero_digit}

-- `a - b` on words of `m` values.
abbrev pub sub_word : ℕ → ℕ → ℕ → ℕ
sub_word m a b = if leb b a then a - b else a + m - b

-- One digit in base `b` below a number of `m` values.
module _ (b m d v : ℕ) (digit : d < b) (rest : v < m) where
  pub sub_word-digit :
      (r : ℕ)
      → r ≤ m
      → d ≢ 0
      → sub_word (m * b) (d + b * v) (1 + b * r) ≡ (d - 1) + b * sub_word m v r
  sub_word-digit r h ne = elim (Bool-cases (leb r v)) [
    | inl fits ↦
        let t = v - r in
        let split : v ≡ r + t = ground arith in
        let scaled : b * v ≡ b * r + b * t = omega (arith, ap (λ (x : ℕ). b * x) split) in
        let test : leb (1 + b * r) (d + b * v) ≡ true = leb-true _ _ (omega arith) in
        rw (fits, test) (omega arith)
    | inr wraps ↦
        let t = v + m - r in
        let split : t + r ≡ v + m = ground arith in
        let scaled : b * t + b * r ≡ b * v + m * b = omega (arith, ap (λ (x : ℕ). b * x) split) in
        let above : v + 1 ≤ r = ground arith in
        let gap : b * v + b ≤ b * r = omega (arith, mul-le-mul_left b above) in
        let test : leb (1 + b * r) (d + b * v) ≡ false = ground arith in
        rw (wraps, test) (omega arith)
  ]

  -- The complement, digit by digit.
  pub not-digit : m * b - 1 - (d + b * v) ≡ (b - 1 - d) + b * (m - 1 - v)
  not-digit =
      let t = m - 1 - v in
      let split : t + v + 1 ≡ m = omega arith in
      let scaled : b * t + b * v + b ≡ m * b = omega (arith, ap (λ (x : ℕ). b * x) split) in
      omega arith

-- Below a zero digit the subtraction borrows, so the lowest digit comes out as all ones.
pub sub_word-zero :
    (b m v r : ℕ)
    → 0 < b
    → v < m
    → r < m
    → (t : ℕ) × (sub_word (m * b) (b * v) (1 + b * r) ≡ (b - 1) + b * t)
sub_word-zero b m v r pos h g = elim (Bool-cases (leb (1 + b * r) (b * v))) [
  | inl fits ↦
      let less : b * r < b * v = ground arith in
      let below : r < v = lt_of_mul-lt-mul_left b less in
      let t = v - r - 1 in
      let split : v ≡ r + t + 1 = omega arith in
      let scaled : b * v ≡ b * r + b * t + b = omega (arith, ap (λ (x : ℕ). b * x) split) in
      (t, rw fits (omega arith))
  | inr wraps ↦
      let t = v + m - r - 1 in
      let split : t + r + 1 ≡ v + m = omega arith in
      let scaled : b * t + b * r + b ≡ b * v + m * b = omega (arith, ap (λ (x : ℕ). b * x) split) in
      (t, rw wraps (omega arith))
]

module _ (k : ℕ) where
  abbrev base : ℕ
  base = 2 ^ suc k

  -- `n` digits, each of them 1.
  unfoldable pub ones : ℕ → ℕ
  ones zero = 0
  ones (suc n) = 1 + base * ones n

  unfoldable pub marks : ℕ → ℕ → ℕ
  unfolding ones
  marks n v = bit_and (bit_and (sub_word (base ^ n) v (ones n)) (base ^ n - 1 - v) / 2 ^ k) (ones n)

  base_pos : 2 ≤ base
  base_pos = omega (arith, pow-suc 2 k, two_pow_pos k)

  ones-lt : (n : ℕ) → ones n < base ^ n
  unfolding ones
  ones-lt zero = omega (arith, pow-zero base)
  ones-lt (suc n) =
      let above : ones n + 1 ≤ base ^ n = omega (arith, ones-lt n) in
      let scaled : base * (ones n + 1) ≤ base * base ^ n = mul-le-mul_left base above in
      omega (arith, pow-suc base n, base_pos)

  -- The top bit of `(d - 1) & ~d` is clear for a digit other than 0.
  top_clear : (d : ℕ) → d < base → d ≢ 0 → bit_and (d - 1) (base - 1 - d) / 2 ^ k ≡ 0
  top_clear d h ne =
      let whole : base ≡ 2 ^ k + 2 ^ k = omega (arith, pow-suc 2 k) in
      let opened = bit_and-div k (d - 1) (base - 1 - d) in
      elim (Bool-cases (leb (2 ^ k + 1) d)) [
        | inl high ↦
            let low : base - 1 - d < 2 ^ k = ground arith in
            rw (opened, div-eq_of_lt low) (bit_and-zero _)
        | inr few ↦
            let low : d - 1 < 2 ^ k = ground (arith, two_pow_pos k) in
            rw (opened, div-eq_of_lt low) (zero-bit_and _)
      ]

  -- The shift and the mask, on a digit `a` below `x`.
  shift-mask :
      (n a x : ℕ)
      → a < base
      → bit_and ((a + base * x) / 2 ^ k) (1 + base * ones n)
        ≡ a / 2 ^ k + base * bit_and (x / 2 ^ k) (ones n)
  shift-mask n a x h =
      let half = 2 ^ k in
      let pos : 0 < half = two_pow_pos k in
      let whole : base ≡ 2 * half = omega (arith, pow-suc 2 k) in
      let bound : a < 2 * half = omega arith in
      let top : a / half < 2 = (div-lt_iff_lt-mul pos).1 bound in
      let xl = x % half in
      let xh = x / half in
      let low : xl < half = mod-lt x pos in
      let parts : half * xh + xl ≡ x = div-add-mod x half in
      let regroup : a + base * x ≡ a + half * (2 * x) =
        omega (arith, ap (λ (t : ℕ). t * x) whole) in
      let word : a / half + 2 * x ≡ (a / half + 2 * xl) + base * xh =
        omega (arith, ap (λ (t : ℕ). t * xh) whole) in
      let bit : (a / half + 2 * xl) % 2 ≡ a / half = omega arith in
      rw (
        regroup,
        add-mul-div_left a (2 * x) pos,
        word,
        bit_and_split (suc k) (a / half + 2 * xl) 1 xh (ones n) (omega arith) (base_pos),
        bit_and-one (a / half + 2 * xl),
        bit,
      )

  -- Above a digit other than 0 the marks are those of the digits above.
  marks-skip :
      (n d v : ℕ)
      → d < base
      → v < base ^ n
      → d ≢ 0
      → marks (suc n) (d + base * v) ≡ base * marks n v
  unfolding marks
  marks-skip n d v h g ne =
      let below : d - 1 < base = omega arith in
      rw
        (
          pow-suc base n,
          sub_word-digit base (base ^ n) d v h g (ones n) (omega (arith, ones-lt n)) ne,
          not-digit base (base ^ n) d v h g,
          bit_and_split (suc k) (d - 1) (base - 1 - d) _ _ below (omega arith),
          shift-mask n (bit_and (d - 1) (base - 1 - d)) _ (bit_and-lt (suc k) _ _ below),
          top_clear d h ne,
        )
        (omega arith)

  top_of_ones : (base - 1) / 2 ^ k ≡ 1
  top_of_ones =
      let whole : base ≡ 2 * 2 ^ k = omega (arith, pow-suc 2 k) in
      let parts : base - 1 ≡ (2 ^ k - 1) + 2 ^ k * 1 = omega (arith, two_pow_pos k) in
      let low : 2 ^ k - 1 < 2 ^ k = omega (arith, two_pow_pos k) in
      rw (parts, add-mul-div_left (2 ^ k - 1) 1 (two_pow_pos k), div-eq_of_lt low) refl

  -- At a zero digit the lowest mark is set.
  marks-zero : (n v : ℕ) → v < base ^ n → marks (suc n) (0 + base * v) % 2 ≡ 1
  unfolding marks
  marks-zero n v g =
      let pos : 0 < base = omega (arith, base_pos) in
      let ones_fit : base - 1 < base = omega arith in
      let (t, borrowed) = sub_word-zero base (base ^ n) v (ones n) pos g (ones-lt n) in
      let a = bit_and (base - 1) (base - 1) in
      let top : a / 2 ^ k ≡ 1 = rw (bit_and-div k (base - 1) (base - 1), top_of_ones) refl in
      let plain : 0 + base * v ≡ base * v = omega arith in
      let flip = not-digit base (base ^ n) 0 v pos g in
      let kept : base - 1 - 0 ≡ base - 1 = omega arith in
      rw
        (
          pow-suc base n,
          flip,
          kept,
          plain,
          borrowed,
          bit_and_split (suc k) (base - 1) (base - 1) t (base ^ n - 1 - v) ones_fit ones_fit,
          shift-mask n a _ (bit_and-lt (suc k) _ _ ones_fit),
          top,
        )
        (omega (arith, two_pow_suc_mul k _))

  -- The first mark stands at the first zero digit.
  pub ctz-marks :
      (n v : ℕ) → v < base ^ n → ctz (n * suc k) (marks n v) ≡ first_zero_digit (suc k) n v
  unfolding first_zero_digit
  ctz-marks zero v h =
      let none_left : 0 * suc k ≡ 0 = omega arith in rw none_left (unfold ctz in refl)
  ctz-marks (suc n) v h =
      let pos : 0 < base = omega (arith, base_pos) in
      let d = v % base in
      let above = v / base in
      let digit : d < base = mod-lt v pos in
      let bound : v < base ^ n * base = omega (arith, pow-suc base n) in
      let rest : above < base ^ n = (div-lt_iff_lt-mul pos).1 bound in
      let parts : v ≡ d + base * above = omega (arith, div-add-mod v base) in
      let width : suc n * suc k ≡ suc k + n * suc k = omega arith in
      let same : marks (suc n) v ≡ marks (suc n) (d + base * above) = ap (marks (suc n)) parts in
      elim (Bool-cases (d == 0)) [
        | inl empty ↦
            let d_zero : d ≡ 0 = ground arith in
            let lowest : marks (suc n) (d + base * above) % 2 ≡ 1 =
              rw d_zero (marks-zero n above rest) in
            let positive : suc n * suc k ≡ suc (k + n * suc k) = omega arith in
            rw (empty, same, positive) (ctz-odd _ _ lowest)
        | inr full ↦
            let ne : d ≢ 0 = ground arith in
            let ih = ctz-marks n above rest in
            rw (full, same, width, marks-skip n d above digit rest ne, ctz-shift (suc k) _ _, ih)
              refl
      ]
