-- ===== src/Lower/RoundTrip.antt =====
-- `lower_put` of src/lower.c after `lower_get`: freeing what was allocated.
use mathlib.Core.Path.{subst, ap₂}
use llfree_c.Base.{
  ℕ, zero, suc, ◌+◌, ◌-◌, ◌^◌, ◌*◌, ◌/◌, ◌%◌, ◌≡◌, ◌≤◌, ◌<◌, inl, inr, refl, ◌∙◌, sym, ap, arith,
  true, false, some, none, length, leb, ltb, leb-true, lt_of_get_elem?, ==-true,
}
use llfree_c.Base.Bits.{two_pow_pos}
use llfree_c.Types.{llfree_ok, llfree_err, ok}
use llfree_c.Child.{Child, child_inc}
use llfree_c.Bitfield.{Bitfield, field_toggle}
use llfree_c.Bitfield.SetNext.{Claimed-lem, groups}
use llfree_c.Bitfield.RoundTrip.{field_toggle-Claimed}
use llfree_c.Lower.State.{Lower, get_child, put_field}
use llfree_c.Lower.Update.{is_invalid}
use llfree_c.Lower.Get.{lower_get}
use llfree_c.Lower.Put.{put_bits, put_small, lower_put}
use llfree_c.Lower.Single.{
  HasChild, HasChild-with_child, with_child, with_child-back, undo_dec_lem, get_child-put_field,
}
use llfree_c.Lower.Claim.{Given}
use llfree_c.Lower.Invariant.{IsLower}
use llfree_c.Lower.GetSmall.{lower_get_lem}

pub put_bits_lem :
    (l : Lower) (i pos order : ℕ) (c d : Child) (f g : Bitfield)
    → HasChild l i c f
    → field_toggle f pos order true ≡ some (g, llfree_err ok)
    → child_inc c order ≡ some d
    → put_bits l i pos order ≡ some (with_child l i d g, llfree_err ok)
unfolding put_bits
put_bits_lem l i pos order c d f g has toggles back =
    rw
      (
        has.bits,
        toggles,
        undo_dec_lem (put_field l i g) i order c d (get_child-put_field l i i g ∙ has.child) back,
      )
      refl

pub put_small_lem :
    (l : Lower) (frame order : ℕ) (c : Child)
    → get_child l (frame / 512) ≡ some c
    → c.huge ≡ false
    → put_small l frame order ≡ put_bits l (frame / 512) (frame % 512) order
unfolding put_small
put_small_lem l frame order c at small = rw (at, small) refl

-- A whole number of children keeps the alignment.
pub aligned_sum :
    (order i pos : ℕ) → order ≤ 6 → pos % 2 ^ order ≡ 0 → (i * 512 + pos) % 2 ^ order ≡ 0
aligned_sum zero i pos h e = omega arith
aligned_sum (suc zero) i pos h e = omega arith
aligned_sum (suc (suc zero)) i pos h e = omega arith
aligned_sum (suc (suc (suc zero))) i pos h e = omega arith
aligned_sum (suc (suc (suc (suc zero)))) i pos h e = omega arith
aligned_sum (suc (suc (suc (suc (suc zero))))) i pos h e = omega arith
aligned_sum (suc (suc (suc (suc (suc (suc zero)))))) i pos h e = omega arith
aligned_sum order i pos h e = absurd (omega arith)

pub is_invalid-false :
    (l : Lower) (frame order : ℕ)
    → frame + 2 ^ order ≤ l.frames
    → l.frames < 2 ^ 64
    → frame % 2 ^ order ≡ 0
    → is_invalid l frame order ≡ false
is_invalid-false l frame order inside word aligned =
    let sum : (frame + 2 ^ order) % 2 ^ 64 ≡ frame + 2 ^ order = omega arith in
    let fits : ltb l.frames (frame + 2 ^ order) ≡ false = ground arith in
    rw (sum, fits, ==-true _ _ aligned) refl

pub lower_put-small :
    (l : Lower) (frame order : ℕ)
    → order ≤ 6
    → is_invalid l frame order ≡ false
    → lower_put l frame order ≡ put_small l frame order
unfolding lower_put
lower_put-small l frame order h valid =
    let small : leb order 12 ≡ true = leb-true _ _ (omega arith) in
    let not_huge : leb 9 order ≡ false = ground arith in rw (small, valid, not_huge) refl

-- A run that entry `i` has given can be put back.
lower_put-Given :
    (l l' : Lower) (i order pos : ℕ)
    → order ≤ 6
    → Given l l' i order pos
    → i * 512 + 512 ≤ l.frames
    → l.frames < 2 ^ 64
    → lower_put l' (i * 512 + pos) order ≡ some (l, llfree_err ok)
lower_put-Given l l' i order pos h g inside word =
    let m = with_child l i g.new g.bits' in
    let frame = i * 512 + pos in
    let held = HasChild-with_child l i g.old g.new g.bits g.bits' g.before in
    let (_, _, aligned, fits) =
      Claimed-lem (2 ^ order) (2 ^ (6 - order)) g.bits g.bits' pos (groups order h)
        g.old_agree.field g.claim in
    let child : frame / 512 ≡ i = omega (arith, two_pow_pos order) in
    let bit : frame % 512 ≡ pos = omega (arith, two_pow_pos order) in
    let valid : is_invalid m frame order ≡ false =
      is_invalid-false m frame order (omega arith) word (aligned_sum order i pos h aligned) in
    let at : get_child m (frame / 512) ≡ some g.new =
      subst (λ x. get_child m x ≡ some g.new) (sym child) held.child in
    subst (λ x. lower_put x frame order ≡ some (l, llfree_err ok)) (sym g.after)
      (lower_put-small m frame order h valid
        ∙ put_small_lem m frame order g.new at g.not_huge
        ∙ ap₂ (λ x y. put_bits m x y order) child bit
        ∙ put_bits_lem m i pos order g.new g.old g.bits' g.bits held
            (field_toggle-Claimed g.bits g.bits' order pos g.old_agree.field h g.claim) g.back
        ∙ ap (λ (x : Lower). some (x, llfree_err ok))
            (with_child-back l i g.old g.new g.bits g.bits' g.before))

-- When `lower_get` without a given frame allocates an order up to 6 from a sound allocator that
-- consists of whole children, has fewer than `2 ^ 64` frames and contains the start frame, then
-- `lower_put` of the returned frame succeeds and gives the allocator of before.
pub lower_put-lower_get :
    (l l' : Lower) (start_frame order frame : ℕ)
    → IsLower l
    → order ≤ 6
    → start_frame < l.frames
    → length l.fields * 512 ≡ l.frames
    → l.frames < 2 ^ 64
    → lower_get l start_frame order none ≡ some (l', llfree_ok frame 0)
    → lower_put l' frame order ≡ some (l, llfree_err ok)
lower_put-lower_get l l' start_frame order frame sound h start whole word run =
    let (r, ran, end) = lower_get_lem l start_frame order sound h start in
    let same : (l', llfree_ok frame 0) ≡ r = ground (arith, run, ran) in
    elim end [
      | inl (i, pos, given, e, _, _, _) ↦
          let in_fields = lt_of_get_elem? l.fields i given.bits given.before.bits in
          let inside : i * 512 + 512 ≤ l.frames = omega arith in
          let at : frame ≡ i * 512 % 2 ^ 64 + pos = ground (arith, same, e) in
          let place : i * 512 + pos ≡ frame = omega arith in
          let left : r.0 ≡ l' = ground (arith, same) in
          subst (λ x. lower_put l' x order ≡ some (l, llfree_err ok)) place
            (lower_put-Given l l' i order pos h (subst (λ x. Given l x i order pos) left given)
              inside word)
      | inr (e, none_left) ↦ ground (arith, same, e)
    ]
