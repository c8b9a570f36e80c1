-- ===== src/Lower/Split.antt =====
-- `split_huge` of src/lower.c: a huge page becomes 512 frames that are all allocated.
use mathlib.Core.Path.{ap₂}
use native.Mathlib.Nat.{pow-suc}
use llfree_c.Utils.Words.{popcount-ones}
use Prim.Native.Nat.{◌/◌}
use native.Mathlib.Nat.{div-eq_of_lt}
use llfree_c.Base.Bits.{two_pow_pos}
use llfree_c.Bitfield.Frames.{frame_bit, word_or_zero}
use llfree_c.Base.{
  ◌%◌, ℕ, zero, suc, ◌^◌, ◌<◌, ◌≡◌, refl, ap, ◌∙◌, arith, true, false, some, List, [], ◌∷◌,
  get_elem?, length, replicate, total, total-replicate, get_elem?-replicate, total-cons,
}
use llfree_c.Types.{llfree_err, ok, uint64_max}
use llfree_c.Utils.{count_ones, popcount}
use llfree_c.Child.{Child, child_new}
use llfree_c.Bitfield.{Bitfield, field_toggle, toggle_rows, cmp_exchange, get_pos}
use llfree_c.Bitfield.Field.{IsField, ones}
use llfree_c.Lower.State.{Lower, put_field}
use llfree_c.Lower.Put.{split_huge}
use llfree_c.Lower.Undo.{exchange_child-hit}
use llfree_c.Lower.Single.{IsChild, HasChild, with_child, get_child-put_field}

-- A field without a bit set, and one with all of them.
abbrev pub clear_field : Bitfield
clear_field = replicate 8 0

abbrev pub full_field : Bitfield
full_field = replicate 8 uint64_max

zero_of_popcount : (n v : ℕ) → v < 2 ^ n → popcount n v ≡ 0 → v ≡ 0
unfolding popcount
zero_of_popcount zero v h e = omega arith
zero_of_popcount (suc n) v h e =
    let half = zero_of_popcount n (v / 2) (omega (arith, pow-suc 2 n)) (omega arith) in omega arith

zeros_of_ones :
    (f : List ℕ)
    → ((i v : ℕ) → get_elem? f i ≡ some v → v < 2 ^ 64)
    → total count_ones f ≡ 0
    → f ≡ replicate (length f) 0
unfolding count_ones
zeros_of_ones [] words e = refl
zeros_of_ones (v ∷ f) words e =
    let sum = total-cons count_ones v f in
    let none_set : v ≡ 0 = zero_of_popcount 64 v (words 0 v refl) (omega arith) in
    let rest = zeros_of_ones f (λ i. words (suc i)) (omega arith) in
    ap₂ (λ (x : ℕ) (xs : List ℕ). x ∷ xs) none_set rest

clear_of_ones : (f : Bitfield) → IsField f → ones f ≡ 0 → f ≡ clear_field
clear_of_ones f field e = zeros_of_ones f field.words e ∙ ap (λ (n : ℕ). replicate n 0) field.rows

zero_words : (n i : ℕ) → word_or_zero (get_elem? (replicate n 0) i) ≡ 0
zero_words zero i = refl
zero_words (suc n) zero = refl
zero_words (suc n) (suc i) = zero_words n i

-- Without ones no frame has its bit set.
pub no_bit : (f : Bitfield) (x : ℕ) → IsField f → ones f ≡ 0 → frame_bit f x ≡ 1 → ⊥
no_bit f x field e set_bit =
    let zero_bit : frame_bit clear_field x ≡ 0 =
      rw (zero_words 8 (x / 64), div-eq_of_lt (two_pow_pos (x % 64))) refl in
    let same : frame_bit f x ≡ frame_bit clear_field x =
      ap (λ (g : Bitfield). frame_bit g x) (clear_of_ones f field e) in
    omega (arith, same, zero_bit, set_bit)

fill : field_toggle clear_field 0 9 false ≡ some (full_field, llfree_err ok)
unfolding field_toggle get_pos toggle_rows cmp_exchange
fill = refl

-- The entry of a child whose frames are all allocated one by one.
abbrev pub used_up : Child
used_up = record { free = 0; huge = false }

pub full_field-IsChild : IsChild used_up full_field
unfolding count_ones
full_field-IsChild = record {
  field = record {
    rows = refl;
    words = λ i v e. omega (arith, get_elem?-replicate 8 i uint64_max v e);
  };
  counted = λ e. omega (arith, total-replicate count_ones 8 uint64_max, all_ones);
  whole = λ e. ground (arith, e);
}
  where
    all_ones : count_ones uint64_max ≡ 64
    all_ones = popcount-ones 64

-- On a huge page, `split_huge` succeeds and leaves all of its frames allocated.
pub split_huge_lem :
    (l : Lower) (i : ℕ) (c : Child) (f : Bitfield)
    → HasChild l i c f
    → IsChild c f
    → c.huge ≡ true
    → split_huge c i l ≡ some (with_child l i used_up full_field, llfree_err ok)
unfolding split_huge child_new
split_huge_lem l i c f has agree huge =
    let (_, none_set) = agree.whole huge in
    let filled : field_toggle f 0 9 false ≡ some (full_field, llfree_err ok) =
      ap (λ (b : Bitfield). field_toggle b 0 9 false) (clear_of_ones f agree.field none_set)
      ∙ fill in
    rw
      (
        has.bits,
        filled,
        exchange_child-hit (put_field l i full_field) i c used_up
            (get_child-put_field l i i full_field ∙ has.child),
      )
      refl
