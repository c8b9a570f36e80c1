-- ===== src/Bitfield/Claims.antt =====
-- The frames of a run that `field_set_next` of src/bitfield.c has claimed.
use llfree_c.Base.{
  ℕ, ◌+◌, ◌-◌, ◌*◌, ◌/◌, ◌%◌, ◌^◌, ◌≤◌, ◌<◌, ◌≡◌, sym, ap, ◌∙◌, arith, true, if◌then◌else◌, some,
  get_elem?, get_elem?_of_lt,
}
use native.Mathlib.Nat.{mul-le-mul_right, lt_of_mul-lt-mul_right, div-add-mod}
use llfree_c.Bitfield.{Bitfield}
use llfree_c.Bitfield.FirstZeros.Spec.{digit, IsFull}
use llfree_c.Bitfield.Field.{IsField, ones, set_run-IsField, ones-set_run}
use llfree_c.Bitfield.Frames.{
  frame_bit, in_run, frame_bit-set_run, frame_bit-clear, digit_of_frames, ones-le,
}
use llfree_c.Bitfield.Toggle.{aligned_room, mod_of_row}
use llfree_c.Bitfield.SetNext.{Claimed, groups, frame_of_run}

module _ (order : ℕ) (h : order ≤ 6) (f f' : Bitfield) (pos : ℕ)
    (c : Claimed (2 ^ order) (2 ^ (6 - order)) f f' pos) where
  abbrev w : ℕ
  w = 2 ^ order

  room : c.slot * w + w ≤ 64
  room = omega (arith, mul-le-mul_right w c.first.inside, groups order h)

  place : c.row * 64 + c.slot * w ≡ pos
  place = frame_of_run c.row (2 ^ (6 - order)) w c.slot (groups order h) ∙ sym c.place

  -- They were clear, and now they are set; no other bit has changed.
  pub Claimed-clear : (x : ℕ) → in_run pos (2 ^ order) x ≡ true → frame_bit f x ≡ 0
  Claimed-clear x inside =
      frame_bit-clear f c.row c.word w c.slot c.at room c.first.clear x
        (ap (λ (p : ℕ). in_run p w x) place ∙ inside)

  pub Claimed-set :
      (x : ℕ) → frame_bit f' x ≡ (if in_run pos (2 ^ order) x then 1 else frame_bit f x)
  Claimed-set x =
      ap (λ (t : Bitfield). frame_bit t x) c.after
      ∙ frame_bit-set_run f c.row c.word w c.slot c.at room c.first.clear x
      ∙ ap (λ (p : ℕ). if in_run p w x then 1 else frame_bit f x) place

-- An aligned place in the field, as a row and a group of it.
pub record Slot (order pos : ℕ) : Type 0 where
  pub row : ℕ
  pub slot : ℕ
  pub row_lt : row < 8
  pub slot_lt : slot < 2 ^ (6 - order)
  pub at : row * 64 + slot * 2 ^ order ≡ pos
  pub room : slot * 2 ^ order + 2 ^ order ≤ 64

pub Slot-of : (order pos : ℕ) → order ≤ 6 → pos < 512 → pos % 2 ^ order ≡ 0 → Slot order pos
Slot-of order pos h inside aligned =
    let w = 2 ^ order in
    let bits = pos % 64 in
    let fits = aligned_room order pos h aligned in
    let none_left : bits % w ≡ 0 = mod_of_row order pos h aligned in
    let whole : bits / w * w ≡ bits = omega (arith, div-add-mod bits w) in
    let below : bits / w * w < 2 ^ (6 - order) * w = omega (arith, groups order h) in
    record {
      row = pos / 64;
      slot = bits / w;
      row_lt = omega arith;
      slot_lt = lt_of_mul-lt-mul_right (2 ^ order) below;
      at = omega arith;
      room = omega arith;
    }

-- A field with a free aligned run of `2 ^ order` frames has that many clear bits at least, and the
-- run is a group of a row that is clear.
pub free_run-few :
    (order : ℕ) (f : Bitfield) (pos : ℕ)
    → order ≤ 6
    → IsField f
    → pos < 512
    → pos % 2 ^ order ≡ 0
    → ((x : ℕ) → in_run pos (2 ^ order) x ≡ true → frame_bit f x ≡ 0)
    → (ones f + 2 ^ order ≤ 512)
      × (((i v : ℕ) → get_elem? f i ≡ some v → IsFull (2 ^ order) (2 ^ (6 - order)) v) → ⊥)
free_run-few order f pos h field inside aligned free =
    let w = 2 ^ order in
    let s = Slot-of order pos h inside aligned in
    let (v, at) = get_elem?_of_lt f s.row (omega (arith, field.rows, s.row_lt)) in
    let clear : digit w v s.slot ≡ 0 =
      digit_of_frames f s.row v w s.slot at s.room
        (λ x run. free x (ap (λ (p : ℕ). in_run p w x) (sym s.at) ∙ run)) in
    (
      omega (
        arith,
        ones-set_run f s.row v w s.slot at s.room clear,
        ones-le _ (set_run-IsField f s.row v w s.slot field at s.room clear),
      ),
      λ full. full s.row v at s.slot s.slot_lt clear,
    )
