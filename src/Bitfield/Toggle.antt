-- ===== src/Bitfield/Toggle.antt =====
-- `row_toggle` and `field_toggle` of src/bitfield.c, for the runs that lie inside one row.
use native.Mathlib.Nat.{mul-le-mul_left}
use Prim.Native.Nat.{bit_and}
use llfree_c.Base.{
  ℕ, zero, suc, ◌+◌, ◌-◌, ◌*◌, ◌/◌, ◌%◌, ◌^◌, ◌≤◌, ◌<◌, ◌≡◌, inl, inr, refl, arith, some, none,
  Option, Bool, true, false, get_elem?, get_elem?_of_lt, set, ltb-true, ltb, ◌==◌, ==-true,
  if◌then◌else◌, Bool-cases, ap,
}
use llfree_c.Base.Bits.{two_pow_pos, two_pow_le}
use llfree_c.Types.{Outcome, llfree_err, ok, memory, uint64_max}
use llfree_c.Utils.{not64}
use llfree_c.Bitfield.{Bitfield, row_toggle, toggle_in_row, field_toggle, get_pos}
use llfree_c.Bitfield.Field.{IsField}
use llfree_c.Bitfield.Masks.{bit_or-run, run, around, bit_and-run, bit_and-not_run, shl64-run}

-- The `w` bits of a word at `p`.
abbrev pub bits_at : ℕ → ℕ → ℕ → ℕ
bits_at w p v = v / 2 ^ p % 2 ^ w

-- What a toggle of the `w` bits at `p` makes of a word: nothing unless all of them are set, or all
-- of them are clear, as the caller expects.
abbrev pub toggled : ℕ → ℕ → ℕ → Bool → Option ℕ
toggled w p v true = if bits_at w p v == 2 ^ w - 1 then some (v - run w p) else none
toggled w p v false = if bits_at w p v == 0 then some (v + run w p) else none

-- Toggling a run of bits of a word.
pub row_toggle-eq-toggled :
    (w p v : ℕ) (expected : Bool)
    → p + w ≤ 64
    → v < 2 ^ 64
    → row_toggle v (run w p) expected ≡ toggled w p v expected
unfolding row_toggle
row_toggle-eq-toggled w p v true room h =
    let a = around w p v room h in
    let both = bit_and-run w p v a in
    let same = a.mid_eq in
    elim (Bool-cases (a.mid == 2 ^ w - 1)) [
      | inl all ↦
          let eq : a.mid ≡ 2 ^ w - 1 = ground arith in
          let scaled = ap (λ (t : ℕ). 2 ^ p * t) eq in
          let mask : bit_and v (run w p) ≡ run w p = omega arith in
          let off : bit_and v (not64 (run w p)) ≡ v - run w p =
            omega (arith, bit_and-not_run w p v a room, a.whole) in
          rw (← same, all, ==-true _ _ mask, off) refl
      | inr some_clear ↦
          let less : a.mid + 1 ≤ 2 ^ w - 1 = ground (arith, a.mid_lt, two_pow_pos w) in
          let scaled = mul-le-mul_left (2 ^ p) less in
          let mask : (bit_and v (run w p) == run w p) ≡ false =
            ground (arith, both, two_pow_pos p) in
          rw (← same, some_clear, mask) refl
    ]
row_toggle-eq-toggled w p v false room h =
    let a = around w p v room h in
    let both = bit_and-run w p v a in
    let same = a.mid_eq in
    elim (Bool-cases (a.mid == 0)) [
      | inl all ↦
          let eq : a.mid ≡ 0 = ground arith in
          let scaled = ap (λ (t : ℕ). 2 ^ p * t) eq in
          let mask : bit_and v (run w p) ≡ 0 = omega arith in
          rw (← same, all, ==-true _ _ mask)
            (ap some (bit_or-run w p v room (omega (arith, a.mid_eq))))
      | inr some_set ↦
          let more : 1 ≤ a.mid = ground arith in
          let scaled = mul-le-mul_left (2 ^ p) more in
          let mask : (bit_and v (run w p) == 0) ≡ false = ground (arith, both, two_pow_pos p) in
          rw (← same, some_set, mask) refl
    ]

-- The mask of `field_toggle` before its shift.
pub mask_eq : (order : ℕ) → order ≤ 6 → uint64_max / 2 ^ (64 - 2 ^ order) ≡ 2 ^ (2 ^ order) - 1
mask_eq zero h = refl
mask_eq (suc zero) h = refl
mask_eq (suc (suc zero)) h = refl
mask_eq (suc (suc (suc zero))) h = refl
mask_eq (suc (suc (suc (suc zero)))) h = refl
mask_eq (suc (suc (suc (suc (suc zero))))) h = refl
mask_eq (suc (suc (suc (suc (suc (suc zero)))))) h = refl
mask_eq order h = absurd (omega arith)

-- An aligned run does not cross the end of a row.
pub aligned_room :
    (order index : ℕ) → order ≤ 6 → index % 2 ^ order ≡ 0 → index % 64 + 2 ^ order ≤ 64
aligned_room zero index h e = omega arith
aligned_room (suc zero) index h e = omega arith
aligned_room (suc (suc zero)) index h e = omega arith
aligned_room (suc (suc (suc zero))) index h e = omega arith
aligned_room (suc (suc (suc (suc zero)))) index h e = omega arith
aligned_room (suc (suc (suc (suc (suc zero))))) index h e = omega arith
aligned_room (suc (suc (suc (suc (suc (suc zero)))))) index h e = omega arith
aligned_room order index h e = absurd (omega arith)

-- A whole number of rows keeps the alignment.
pub mod_of_row : (order index : ℕ) → order ≤ 6 → index % 2 ^ order ≡ 0 → index % 64 % 2 ^ order ≡ 0
mod_of_row zero index h e = omega arith
mod_of_row (suc zero) index h e = omega arith
mod_of_row (suc (suc zero)) index h e = omega arith
mod_of_row (suc (suc (suc zero))) index h e = omega arith
mod_of_row (suc (suc (suc (suc zero)))) index h e = omega arith
mod_of_row (suc (suc (suc (suc (suc zero))))) index h e = omega arith
mod_of_row (suc (suc (suc (suc (suc (suc zero)))))) index h e = omega arith
mod_of_row order index h e = absurd (omega arith)

-- An aligned run does not cross the end of a child.
pub aligned_in_child :
    (order index : ℕ)
    → order ≤ 6
    → index % 2 ^ order ≡ 0
    → (index % 512 + 2 ^ order ≤ 512) × (index % 512 % 2 ^ order ≡ 0)
aligned_in_child zero index h e = (omega arith, omega arith)
aligned_in_child (suc zero) index h e = (omega arith, omega arith)
aligned_in_child (suc (suc zero)) index h e = (omega arith, omega arith)
aligned_in_child (suc (suc (suc zero))) index h e = (omega arith, omega arith)
aligned_in_child (suc (suc (suc (suc zero)))) index h e = (omega arith, omega arith)
aligned_in_child (suc (suc (suc (suc (suc zero))))) index h e = (omega arith, omega arith)
aligned_in_child (suc (suc (suc (suc (suc (suc zero)))))) index h e = (omega arith, omega arith)
aligned_in_child order index h e = absurd (omega arith)

-- The field after a toggle of one row.
abbrev pub toggle_result : Bitfield → ℕ → Option ℕ → Bitfield × Outcome
toggle_result f row (some v) = (set f row v, llfree_err ok)
toggle_result f row none = (f, llfree_err memory)

toggle_in_row_lem :
    (f : Bitfield) (i v mask : ℕ) (expected : Bool) (o : Option ℕ)
    → get_elem? f i ≡ some v
    → row_toggle v mask expected ≡ o
    → toggle_in_row f i mask expected ≡ some (toggle_result f i o)
unfolding toggle_in_row
toggle_in_row_lem f i v mask expected (some u) at step = rw (at, step) refl
toggle_in_row_lem f i v mask expected none at step = rw (at, step) refl

-- On a well-formed field, for every order up to 6 and every aligned place in the field,
-- `field_toggle` does not fail an assertion. When all bits of the run are as the caller expects, it
-- flips exactly them; otherwise it reports that memory is out and leaves the field as it was.
pub field_toggle_lem :
    (f : Bitfield) (index order : ℕ) (expected : Bool)
    → IsField f
    → order ≤ 6
    → index < 512
    → index % 2 ^ order ≡ 0
    → (v : ℕ) × (get_elem? f (index / 64) ≡ some v)
      × (field_toggle f index order expected
          ≡ some (toggle_result f (index / 64) (toggled (2 ^ order) (index % 64) v expected)))
unfolding field_toggle get_pos
field_toggle_lem f index order expected field h inside aligned =
    let (v, at) = get_elem?_of_lt f (index / 64) (omega (arith, field.rows)) in
    let w = 2 ^ order in
    let p = index % 64 in
    let room = aligned_room order index h aligned in
    let row : index % 512 / 64 ≡ index / 64 = omega arith in
    let bit : index % 512 % 64 ≡ p = omega arith in
    let one_row : ltb 64 w ≡ false = ground (arith, two_pow_le order 6 h) in
    let in_field : ltb index 512 ≡ true = ltb-true _ _ inside in
    (
      v,
      at,
      rw (in_field, one_row, row, bit, mask_eq order h, shl64-run w p room)
          (toggle_in_row_lem f (index / 64) v (run w p) expected _ at
            (row_toggle-eq-toggled w p v expected room (field.words _ v at))),
    )
