-- ===== src/Bitfield/RoundTrip.antt =====
-- `field_toggle` of src/bitfield.c after `field_set_next`: freeing what was allocated.
use native.Mathlib.Nat.{
  mul-le-mul_right, add-mul-div_right, mul-add-mod_self_left, mod-eq_of_lt, div-add-mod,
}
use llfree_c.Base.{
  ℕ, ◌+◌, ◌-◌, ◌*◌, ◌/◌, ◌%◌, ◌^◌, ◌≤◌, ◌≡◌, arith, some, true, get_elem?, lt_of_get_elem?,
  get_elem?-set_self, set-set, set_of_get_elem?, ==-true, ◌∙◌, ap, set, refl,
}
use llfree_c.Base.Bits.{two_pow_pos}
use llfree_c.Types.{llfree_ok, llfree_err, ok}
use llfree_c.Bitfield.{Bitfield, field_set_next, field_toggle}
use llfree_c.Bitfield.Field.{IsField}
use llfree_c.Bitfield.SetNext.{Claimed, Claimed-lem, field_set_next-Claimed, groups, frame_of_run}
use llfree_c.Bitfield.Toggle.{toggled, toggle_result, field_toggle_lem}

-- The run is set in the word that `set_run` writes.
bits_at-run :
    (w p v : ℕ) → v / 2 ^ p % 2 ^ w ≡ 0 → (v + (2 ^ w - 1) * 2 ^ p) / 2 ^ p % 2 ^ w ≡ 2 ^ w - 1
bits_at-run w p v clear =
    let y = v / 2 ^ p / 2 ^ w in
    let above : v / 2 ^ p + (2 ^ w - 1) ≡ 2 ^ w * y + (2 ^ w - 1) =
      omega (arith, div-add-mod (v / 2 ^ p) (2 ^ w)) in
    rw (add-mul-div_right v (2 ^ w - 1) (two_pow_pos p), above)
      (mul-add-mod_self_left (2 ^ w) y (2 ^ w - 1) ∙ mod-eq_of_lt (omega (arith, two_pow_pos w)))

toggled-set_run :
    (w p v : ℕ) → v / 2 ^ p % 2 ^ w ≡ 0 → toggled w p (v + (2 ^ w - 1) * 2 ^ p) true ≡ some v
toggled-set_run w p v clear =
    let back : v + (2 ^ w - 1) * 2 ^ p - (2 ^ w - 1) * 2 ^ p ≡ v = omega arith in
    rw (==-true _ _ (bits_at-run w p v clear), back) refl

toggle_result-set_run :
    (f f' : Bitfield) (row row' w p p' v word : ℕ)
    → row' ≡ row
    → p' ≡ p
    → v ≡ word + (2 ^ w - 1) * 2 ^ p
    → word / 2 ^ p % 2 ^ w ≡ 0
    → set f' row word ≡ f
    → toggle_result f' row' (toggled w p' v true) ≡ (f, llfree_err ok)
toggle_result-set_run f f' row row' w p p' v word at bit here clear back =
    rw (at, bit, here, toggled-set_run w p word clear, back) refl

-- A claimed run can be toggled back.
pub field_toggle-Claimed :
    (f f' : Bitfield) (order frame : ℕ)
    → IsField f
    → order ≤ 6
    → Claimed (2 ^ order) (2 ^ (6 - order)) f f' frame
    → field_toggle f' frame order true ≡ some (f, llfree_err ok)
field_toggle-Claimed f f' order frame field h c =
    let w = 2 ^ order in
    let n = 2 ^ (6 - order) in
    let (field', _, aligned, inside) = Claimed-lem w n f f' frame (groups order h) field c in
    let room : c.slot * w + w ≤ 64 =
      omega (arith, mul-le-mul_right w c.first.inside, groups order h) in
    let split = frame_of_run c.row n w c.slot (groups order h) in
    let row : frame / 64 ≡ c.row = omega (arith, c.place, two_pow_pos order) in
    let bit : frame % 64 ≡ c.slot * w = omega (arith, c.place, two_pow_pos order) in
    let (v', at', toggles) =
      field_toggle_lem f' frame order true field' h (omega (arith, two_pow_pos order)) aligned in
    let written : get_elem? f' c.row ≡ some (c.word + (2 ^ w - 1) * 2 ^ (c.slot * w)) =
      rw c.after (get_elem?-set_self f c.row _ (lt_of_get_elem? f c.row c.word c.at)) in
    let word : v' ≡ c.word + (2 ^ w - 1) * 2 ^ (c.slot * w) = ground (arith, row, at', written) in
    let again : set f' c.row c.word ≡ f =
      rw c.after (set-set f c.row _ c.word ∙ set_of_get_elem? f c.row c.word c.at) in
    toggles
    ∙ ap some (
        toggle_result-set_run f f' c.row _ w (c.slot * w) _ v' c.word row bit word c.first.clear
          again)

-- When `field_set_next` finds a run of an order up to 6 in a well-formed field, then `field_toggle`
-- of that run, expected to be allocated, succeeds and gives the field of before.
pub field_toggle-field_set_next :
    (f f' : Bitfield) (start_frame order frame : ℕ)
    → IsField f
    → order ≤ 6
    → field_set_next f start_frame order ≡ some (f', llfree_ok frame 0)
    → field_toggle f' frame order true ≡ some (f, llfree_err ok)
field_toggle-field_set_next f f' start_frame order frame field h done =
    field_toggle-Claimed f f' order frame field h
      (field_set_next-Claimed f f' start_frame order frame field h done)
