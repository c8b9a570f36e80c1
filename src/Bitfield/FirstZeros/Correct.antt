-- ===== src/Bitfield/FirstZeros/Correct.antt =====
-- `first_zeros_aligned` finds the first aligned run of zeros, for every word and every order.
use Prim.Native.Nat.{bit_or}
use mathlib.Core.Path.{subst}
use native.Mathlib.Nat.{mul-le-mul_right}
use llfree_c.Base.{
  ℕ, zero, suc, ◌+◌, ◌-◌, ◌*◌, ◌/◌, ◌^◌, ◌≤◌, ◌<◌, ◌≡◌, ◌⊎◌, inl, inr, refl, sym, ◌∙◌, arith,
  Option, some, none, ltb-true, ◌==◌, if◌then◌else◌, Bool-cases,
}
use llfree_c.Types.{uint64_max}
use llfree_c.Utils.{u32, shl64, sub64, not64, trailing_zeros}
use llfree_c.Utils.Words.{trailing_zeros-eq-ctz}
use llfree_c.Bitfield.{Hit, hit, zero_digits, first_zeros_aligned}
use llfree_c.Bitfield.FirstZeros.Spec.{
  first_zero_digit, FirstSlot, IsFull, first_zero_digit_lem, set-slot,
}
use llfree_c.Bitfield.FirstZeros.Marks.{sub_word, marks, ctz-marks}
use llfree_c.Bitfield.FirstZeros.Pairs.{ctz-not, clear_pairs, ctz-clear_pairs}

-- `found` is the first clear group of `w` bits of `v`, marked; or `none`, and no group is clear.
abbrev pub IsFirst : ℕ → ℕ → ℕ → Option Hit → Type 0
IsFirst w n v found =
    ((slot : ℕ) × FirstSlot w n v slot
      × (found ≡ some (record { row = v + (2 ^ w - 1) * 2 ^ (slot * w); pos = slot * w })))
    ⊎ ((found ≡ none) × IsFull w n v)

hit-IsFirst :
    (w n v : ℕ)
    → n * w ≡ 64
    → 0 < w
    → let p = first_zero_digit w n v in IsFirst w n v (hit p (bit_or v (shl64 (2 ^ w - 1) p)))
hit-IsFirst w n v total pos = elim (first_zero_digit_lem w n v) [
  | inl (slot, first, at) ↦
      let room : suc slot * w ≤ 64 = omega (arith, mul-le-mul_right w first.inside) in
      rw at (inl (slot, first, placed slot first room))
  | inr (all, at) ↦ rw (at, total) (inr (refl, all))
]
  where
    placed :
        (slot : ℕ)
        → FirstSlot w n v slot
        → suc slot * w ≤ 64
        → hit (slot * w) (bit_or v (shl64 (2 ^ w - 1) (slot * w)))
          ≡ some (record { row = v + (2 ^ w - 1) * 2 ^ (slot * w); pos = slot * w })
    placed slot first room =
        let inside : slot * w < 64 = omega arith in
        let fits : slot * w + w ≤ 64 = omega arith in
        rw (ltb-true _ _ inside, set-slot w v slot fits first.clear) refl

-- For the orders whose position comes from a count of zero bits.
counted :
    (w n v p : ℕ)
    → n * w ≡ 64
    → 0 < w
    → p ≡ first_zero_digit w n v
    → IsFirst w n v (hit p (bit_or v (shl64 (2 ^ w - 1) p)))
counted w n v p total pos at = rw at (hit-IsFirst w n v total pos)

sub64-eq-sub_word : (v m : ℕ) → v < 2 ^ 64 → m ≤ 2 ^ 64 → sub64 v m ≡ sub_word (2 ^ 64) v m
sub64-eq-sub_word v m h g = ground arith

bits : (v : ℕ) → v < 2 ^ 64 → trailing_zeros (not64 v) ≡ first_zero_digit 1 64 v
bits v h = trailing_zeros-eq-ctz (not64 v) ∙ ctz-not 64 v h

pairs :
    (v : ℕ)
    → v < 2 ^ 64
    → trailing_zeros (not64 (bit_or (bit_or v (v / 2)) 0xaaaaaaaaaaaaaaaa))
      ≡ first_zero_digit 2 32 v
unfolding clear_pairs
pairs v h = trailing_zeros-eq-ctz _ ∙ ctz-clear_pairs 32 v h

nibbles :
    (v : ℕ)
    → v < 2 ^ 64
    → trailing_zeros (zero_digits v 0x1111111111111111 3) ≡ first_zero_digit 4 16 v
unfolding marks
nibbles v h =
    rw (trailing_zeros-eq-ctz, sub64-eq-sub_word v 0x1111111111111111 h (omega arith))
      (ctz-marks 3 16 v h)

bytes :
    (v : ℕ)
    → v < 2 ^ 64
    → trailing_zeros (zero_digits v 0x0101010101010101 7) ≡ first_zero_digit 8 8 v
unfolding marks
bytes v h =
    rw (trailing_zeros-eq-ctz, sub64-eq-sub_word v 0x0101010101010101 h (omega arith))
      (ctz-marks 7 8 v h)

halves :
    (v : ℕ)
    → v < 2 ^ 64
    → trailing_zeros (zero_digits v 0x0001000100010001 15) ≡ first_zero_digit 16 4 v
unfolding marks
halves v h =
    rw (trailing_zeros-eq-ctz, sub64-eq-sub_word v 0x0001000100010001 h (omega arith))
      (ctz-marks 15 4 v h)

words : ℕ → Option Hit
words v =
    if u32 v == 0
    then some (record { row = bit_or v 0xffffffff; pos = 0 })
    else if v / 2 ^ 32 == 0
    then some (record { row = bit_or v (shl64 0xffffffff 32); pos = 32 })
    else none

words-eq-hit :
    (v : ℕ)
    → v < 2 ^ 64
    → let p = first_zero_digit 32 2 v in words v ≡ hit p (bit_or v (shl64 (2 ^ 32 - 1) p))
unfolding words first_zero_digit
words-eq-hit v h = ground arith

word-eq-hit :
    (v : ℕ)
    → v < 2 ^ 64
    → let p = first_zero_digit 64 1 v in
      (if v == 0 then some (record { row = uint64_max; pos = 0 }) else none)
      ≡ hit p (bit_or v (shl64 (2 ^ 64 - 1) p))
unfolding first_zero_digit
word-eq-hit v h = elim (Bool-cases (v == 0)) [
  | inl empty ↦ let none_set : v ≡ 0 = ground arith in rw none_set refl
  | inr full ↦ ground arith
]

-- For every word below `2 ^ 64` and every order up to 6, the search does not fail an assertion.
-- Either it returns the first aligned run of `2 ^ order` zeros and the word with exactly that run
-- set, or it returns false and every aligned run has a bit set.
pub first_zeros_aligned_lem :
    (v order : ℕ)
    → v < 2 ^ 64
    → order ≤ 6
    → (found : Option Hit) × (first_zeros_aligned v order ≡ some found)
      × IsFirst (2 ^ order) (2 ^ (6 - order)) v found
unfolding first_zeros_aligned words
first_zeros_aligned_lem v zero h g = (_, refl, counted 1 64 v _ refl (omega arith) (bits v h))
first_zeros_aligned_lem v (suc zero) h g =
    (_, refl, counted 2 32 v _ refl (omega arith) (pairs v h))
first_zeros_aligned_lem v (suc (suc zero)) h g =
    (_, refl, counted 4 16 v _ refl (omega arith) (nibbles v h))
first_zeros_aligned_lem v (suc (suc (suc zero))) h g =
    (_, refl, counted 8 8 v _ refl (omega arith) (bytes v h))
first_zeros_aligned_lem v (suc (suc (suc (suc zero)))) h g =
    (_, refl, counted 16 4 v _ refl (omega arith) (halves v h))
first_zeros_aligned_lem v (suc (suc (suc (suc (suc zero))))) h g = (
  _,
  refl,
  subst (IsFirst 32 2 v) (sym (words-eq-hit v h)) (hit-IsFirst 32 2 v refl (omega arith)),
)
first_zeros_aligned_lem v (suc (suc (suc (suc (suc (suc zero)))))) h g = (
  _,
  refl,
  subst (IsFirst 64 1 v) (sym (word-eq-hit v h)) (hit-IsFirst 64 1 v refl (omega arith)),
)
first_zeros_aligned_lem v order h g = absurd (omega arith)
