-- ===== src/Lower/Init/Fields.antt =====
-- `init_field` of src/lower.c: a field whose first frames are free.
use llfree_c.Base.{
  ℕ, zero, suc, ◌+◌, ◌-◌, ◌*◌, ◌/◌, ◌%◌, ◌^◌, ◌≤◌, ◌<◌, ◌≡◌, refl, sym, ap, ◌∙◌, arith, true, false,
  leb, ltb, if◌then◌else◌, Bool-cases, inl, inr, some, get_elem?, length, total, total-cons,
  total-nil, leb-true, ltb-true, lt_of_get_elem?,
}
use native.Mathlib.Nat.{mod-eq_of_lt, zero-div, zero-mod, add-mul-mod_self_right}
use Prim.Native.Nat.{min}
use mathlib.Core.Path.{subst}
use llfree_c.Bitfield.FirstZeros.Spec.{pred-one}
use llfree_c.Base.Bits.{two_pow_pos, two_pow_add, two_pow_le}
use llfree_c.Types.{uint64_max}
use llfree_c.Utils.{shl64, count_ones}
use llfree_c.Utils.Words.{popcount-ones, popcount-zero}
use llfree_c.Bitfield.Field.{IsField, ones}
use llfree_c.Bitfield.Frames.{frame_bit, frame_bit-at}
use llfree_c.Bitfield.Slots.{count_ones-set, set-lt}
use llfree_c.Bitfield.Masks.{run}
use llfree_c.Bitfield.Bits.{bit, bit-run, bit-ones}
use llfree_c.Lower.Init.{init_rows, init_field}

-- A row of which the first `r` bits are to be clear.
abbrev row_word : ℕ → ℕ
row_word r = if leb 64 r then 0 else if ltb 0 r then shl64 uint64_max r else uint64_max

-- The part of a row from bit `r` on is a run of the empty word.
shifted-run : (r : ℕ) → 0 < r → r < 64 → shl64 uint64_max r ≡ 0 + run (64 - r) r
shifted-run r pos h =
    let width : r + (64 - r) ≡ 64 = omega arith in
    let whole : 2 ^ r * 2 ^ (64 - r) ≡ 2 ^ 64 =
      omega (arith, two_pow_add r (64 - r), ap (λ (t : ℕ). 2 ^ t) width) in
    let small : 2 ^ r ≤ 2 ^ 64 = two_pow_le r 64 (omega arith) in
    let top : 2 ^ r ≡ (2 ^ r - 1) + 1 = omega (arith, two_pow_pos r) in
    let split : uint64_max * 2 ^ r ≡ (2 ^ 64 - 2 ^ r) + (2 ^ r - 1) * 2 ^ 64 = omega arith in
    let rest : 2 ^ 64 - 2 ^ r < 2 ^ 64 = omega (arith, two_pow_pos r) in
    let parts : 0 + run (64 - r) r ≡ 2 ^ 64 - 2 ^ r =
      omega (arith, ap (λ (t : ℕ). 2 ^ r * t) (pred-one (64 - r))) in
    ap (λ (t : ℕ). t % 2 ^ 64) split
    ∙ add-mul-mod_self_right (2 ^ 64 - 2 ^ r) (2 ^ r - 1) (2 ^ 64)
    ∙ mod-eq_of_lt rest
    ∙ sym parts

-- What such a row is.
record Row (r : ℕ) : Type 0 where
  pub word : row_word r < 2 ^ 64
  pub count : count_ones (row_word r) + min r 64 ≡ 64
  pub bits : (b : ℕ) → b < 64 → bit (row_word r) b ≡ (if ltb b r then 0 else 1)

bit-zero : (b : ℕ) → bit 0 b ≡ 0
bit-zero b = rw (zero-div (2 ^ b)) refl

Row-clear : (r : ℕ) → 64 ≤ r → Row r
unfolding count_ones
Row-clear r h =
    let all : leb 64 r ≡ true = leb-true _ _ h in
    record {
      word = rw all (omega arith);
      count = rw (all, popcount-zero 64) (omega arith);
      bits = λ b lt. rw (all, bit-zero b) (ground arith);
    }

Row-part : (r : ℕ) → 0 < r → r < 64 → Row r
unfolding count_ones
Row-part r pos h =
    let some_used : leb 64 r ≡ false = ground arith in
    let some_free : ltb 0 r ≡ true = ltb-true _ _ pos in
    let clear : 0 / 2 ^ r % 2 ^ (64 - r) ≡ 0 = rw (zero-div (2 ^ r)) (zero-mod (2 ^ (64 - r))) in
    let fits : r + (64 - r) ≤ 64 = omega arith in
    record {
      word =
          rw (some_used, some_free, shifted-run r pos h)
            (set-lt (64 - r) r 0 fits (omega arith) clear);
      count =
          rw (some_used, some_free, shifted-run r pos h)
            (omega (arith, count_ones-set (64 - r) r 0 fits clear, ones_zero));
      bits = λ b lt.
          rw (some_used, some_free, shifted-run r pos h)
            (bit-run (64 - r) r 0 b clear ∙ rw (bit-zero b) (ground arith));
    }
  where
    ones_zero : count_ones 0 ≡ 0
    ones_zero = popcount-zero 64

Row-full : Row 0
unfolding count_ones
Row-full = record {
  word = omega arith;
  count = omega (arith, popcount-ones 64);
  bits =
      λ b lt. let none_free : ltb b 0 ≡ false = ground arith in rw none_free (bit-ones 64 0 b lt);
}

row_lem : (r : ℕ) → Row r
row_lem zero = Row-full
row_lem (suc r) = elim (Bool-cases (leb 64 (suc r))) [
  | inl all ↦ Row-clear (suc r) (ground arith)
  | inr part ↦ Row-part (suc r) (omega arith) (ground arith)
]

init_rows-at :
    (n free i : ℕ) → i < n → get_elem? (init_rows n free) i ≡ some (row_word (free - i * 64))
unfolding init_rows
init_rows-at zero free i h = absurd (omega arith)
init_rows-at (suc n) free zero h = let same : free - 0 * 64 ≡ free = omega arith in rw same refl
init_rows-at (suc n) free (suc i) h =
    let rest : free - 64 - i * 64 ≡ free - suc i * 64 = omega arith in
    rw (← rest) (init_rows-at n (free - 64) i (omega arith))

length-init_rows : (n free : ℕ) → length (init_rows n free) ≡ n
unfolding init_rows
length-init_rows zero free = refl
length-init_rows (suc n) free = ap suc (length-init_rows n (free - 64))

total-init_rows : (n free : ℕ) → total count_ones (init_rows n free) + min free (n * 64) ≡ n * 64
unfolding init_rows
total-init_rows zero free = omega (arith, total-nil count_ones)
total-init_rows (suc n) free =
    let first = (row_lem free).count in
    let sum = total-cons count_ones (row_word free) (init_rows n (free - 64)) in
    omega (arith, total-init_rows n (free - 64))

-- A field of which the first `free` frames are free.
pub init_field-IsField : (free : ℕ) → IsField (init_field free)
unfolding init_field
init_field-IsField free = record {
  rows = length-init_rows 8 free;
  words = λ i v e.
      let short : i < 8 =
        omega (arith, lt_of_get_elem? (init_rows 8 free) i v e, length-init_rows 8 free) in
      let at : row_word (free - i * 64) ≡ v = ground (arith, e, init_rows-at 8 free i short) in
      subst (λ x. x < 2 ^ 64) at ((row_lem (free - i * 64)).word);
}

pub ones-init_field : (free : ℕ) → free ≤ 512 → ones (init_field free) + free ≡ 512
unfolding init_field
ones-init_field free h = omega (arith, total-init_rows 8 free)

pub frame_bit-init_field :
    (free x : ℕ) → x < 512 → frame_bit (init_field free) x ≡ (if ltb x free then 0 else 1)
unfolding init_field
frame_bit-init_field free x h =
    let r = free - x / 64 * 64 in
    let place : ltb (x % 64) r ≡ ltb x free = ground arith in
    frame_bit-at (init_rows 8 free) x (row_word r) (init_rows-at 8 free (x / 64) (omega arith))
    ∙ (row_lem r).bits (x % 64) (omega arith)
    ∙ rw place refl
