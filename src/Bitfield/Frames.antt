-- ===== src/Bitfield/Frames.antt =====
-- A bit field of src/bitfield.c as the frames it marks: one bit for each frame of a child.
use Prim.Native.Nat.{bit_and}
use llfree_c.Base.{
  ℕ, ◌+◌, ◌*◌, ◌/◌, ◌%◌, ◌^◌, ◌≤◌, ◌<◌, ◌≡◌, refl, sym, ap, ◌∙◌, arith, Bool, true, false, ◌&&◌,
  leb, ltb, ◌==◌, if◌then◌else◌, Bool-cases, inl, inr, Option, some, none, List, get_elem?, set,
  total-le, get_elem?-set_self, get_elem?-set_ne, lt_of_get_elem?, get_elem?_of_lt, total, length,
  ltb-true,
}
use llfree_c.Base.Bits.{two_pow_pos}
use llfree_c.Utils.{count_ones, popcount, shl64}
use llfree_c.Utils.Words.{popcount-le}
use llfree_c.Bitfield.{Bitfield, field_is_free, get_pos}
use llfree_c.Bitfield.FirstZeros.Spec.{digit}
use llfree_c.Bitfield.Field.{IsField, ones, set_run}
use llfree_c.Bitfield.Masks.{run, around, bit_and-run, shl64-run}
use llfree_c.Bitfield.Bits.{bit, bit-run, bit-digit, digit_of_bits}

-- The word of a row, 0 where there is none.
abbrev pub word_or_zero : Option ℕ → ℕ
word_or_zero none = 0
word_or_zero (some v) = v

-- The bit of frame `x` of the child.
abbrev pub frame_bit : Bitfield → ℕ → ℕ
frame_bit f x = bit (word_or_zero (get_elem? f (x / 64))) (x % 64)

-- `x` is one of the `n` frames from `frame` on.
abbrev pub in_run : ℕ → ℕ → ℕ → Bool
in_run frame n x = leb frame x && ltb x (frame + n)

pub frame_bit-at :
    (f : Bitfield) (x v : ℕ) → get_elem? f (x / 64) ≡ some v → frame_bit f x ≡ bit v (x % 64)
frame_bit-at f x v at = rw at refl

-- On a well-formed field, for a place in it, `field_is_free` does not fail an assertion and tells
-- whether the bit of that frame in its row is clear.
pub field_is_free-eq_bit :
    (f : Bitfield) (x : ℕ) → IsField f → x < 512 → field_is_free f x ≡ some (frame_bit f x == 0)
unfolding field_is_free get_pos
field_is_free-eq_bit f x field inside =
    let (v, at) = get_elem?_of_lt f (x / 64) (omega (arith, field.rows)) in
    let row : x % 512 / 64 ≡ x / 64 = omega arith in
    let pos : x % 512 % 64 ≡ x % 64 = omega arith in
    let legal : ltb x 512 ≡ true = ltb-true _ _ inside in
    rw (legal, row, pos, at) (ap some (single v (x % 64) (omega arith) (field.words _ v at)))
  where
    single : (v b : ℕ) → b < 64 → v < 2 ^ 64 → (bit_and v (shl64 1 b) == 0) ≡ (v / 2 ^ b % 2 == 0)
    single v b h word =
        let a = around 1 b v (omega arith) word in
        let mask : shl64 1 b ≡ run 1 b = shl64-run 1 b (omega arith) in
        let both : bit_and v (shl64 1 b) ≡ 2 ^ b * a.mid = rw mask (bit_and-run 1 b v a) in
        elim (Bool-cases (a.mid == 0)) [
          | inl clear ↦
              let eq : a.mid ≡ 0 = ground arith in
              let scaled = ap (λ (t : ℕ). 2 ^ b * t) eq in ground (arith, both, a.mid_eq)
          | inr set ↦
              let eq : a.mid ≡ 1 = ground (arith, a.mid_lt) in
              let scaled = ap (λ (t : ℕ). 2 ^ b * t) eq in
              ground (arith, both, a.mid_eq, two_pow_pos b)
        ]

module _ (f : Bitfield) (row v w slot : ℕ) (at : get_elem? f row ≡ some v)
    (room : slot * w + w ≤ 64) where
  -- Setting a clear run sets the bits of its frames and no others.
  pub frame_bit-set_run :
      digit w v slot ≡ 0
      → (x : ℕ)
      → frame_bit (set_run f row v w slot) x
        ≡ (if in_run (row * 64 + slot * w) w x then 1 else frame_bit f x)
  frame_bit-set_run clear x = elim (Bool-cases (row == x / 64)) [
    | inl same ↦
        let here : x / 64 ≡ row = ground arith in
        let written : get_elem? (set_run f row v w slot) (x / 64) ≡ some (v + run w (slot * w)) =
          rw here (get_elem?-set_self f row _ (lt_of_get_elem? f row v at)) in
        let old : get_elem? f (x / 64) ≡ some v = rw here at in
        let place : in_run (row * 64 + slot * w) w x
            ≡ (leb (slot * w) (x % 64) && ltb (x % 64) (slot * w + w)) =
          ground arith in
        frame_bit-at _ x _ written ∙ bit-run w (slot * w) v (x % 64) clear ∙ rw (place, old) refl
    | inr other ↦
        let outside : in_run (row * 64 + slot * w) w x ≡ false = ground arith in
        rw (outside, get_elem?-set_ne f row (x / 64) (v + run w (slot * w)) (ground arith)) refl
  ]

  -- The frames of a clear run are those whose bits are clear.
  pub frame_bit-clear :
      digit w v slot ≡ 0 → (x : ℕ) → in_run (row * 64 + slot * w) w x ≡ true → frame_bit f x ≡ 0
  frame_bit-clear clear x inside =
      let here : x / 64 ≡ row = ground arith in
      let old : get_elem? f (x / 64) ≡ some v = rw here at in
      frame_bit-at f x v old ∙ bit-digit w (slot * w) v (x % 64) clear (ground arith) (ground arith)

  pub digit_of_frames :
      ((x : ℕ) → in_run (row * 64 + slot * w) w x ≡ true → frame_bit f x ≡ 0) → digit w v slot ≡ 0
  digit_of_frames free = digit_of_bits w (slot * w) v (λ b from inside.
      let x = row * 64 + b in
      let here : x / 64 ≡ row = omega arith in
      let place : x % 64 ≡ b = omega arith in
      let old : get_elem? f (x / 64) ≡ some v = rw here at in
      sym (frame_bit-at f x v old ∙ ap (bit v) place) ∙ free x (ground arith))

-- A field has at most 512 bits.
ones_le : (xs : List ℕ) → total count_ones xs ≤ length xs * 64
unfolding count_ones
ones_le xs = total-le (λ v. popcount 64 v) 64 (λ v. popcount-le 64 v) xs

pub ones-le : (f : Bitfield) → IsField f → ones f ≤ 512
ones-le f field = omega (arith, ones_le f, field.rows)
