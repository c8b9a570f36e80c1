-- ===== src/Lower/Refine.antt =====
-- `lower_get` of src/lower.c, for the runs that lie inside a row, against the set of free frames.
use mathlib.Core.Path.{subst}
use llfree_c.Base.{
  ℕ, ◌+◌, ◌-◌, ◌*◌, ◌/◌, ◌%◌, ◌^◌, ◌≤◌, ◌<◌, ◌≡◌, inl, inr, refl, sym, ap, ◌∙◌, arith, true, false,
  some, none, get_elem?,
}
use llfree_c.Base.Bits.{two_pow_pos}
use llfree_c.Types.{Outcome, llfree_ok}
use llfree_c.Child.{Child}
use llfree_c.Bitfield.{Bitfield}
use llfree_c.Bitfield.FirstZeros.Spec.{IsFull}
use llfree_c.Bitfield.Frames.{frame_bit, in_run}
use llfree_c.Bitfield.Claims.{Claimed-clear, Claimed-set, free_run-few}
use llfree_c.Bitfield.SetNext.{Claimed-lem, groups}
use llfree_c.Bitfield.Toggle.{aligned_in_child}
use llfree_c.Lower.State.{Lower}
use llfree_c.Lower.Get.{lower_get}
use llfree_c.Lower.Single.{HasChild}
use llfree_c.Lower.Claim.{Given}
use llfree_c.Lower.Invariant.{IsLower, Sound}
use llfree_c.Lower.GetSmall.{GivesNone, lower_get_lem}
use llfree_c.Lower.RoundTrip.{aligned_sum}
use llfree_c.Lower.Spec.{is_free, AllFree, Takes, Allocation}
use llfree_c.Lower.Sets.{is_free-behind, is_free-HasChild, Takes-child}

pub Takes-Given :
    (l l' : Lower) (i order pos : ℕ)
    → order ≤ 6
    → Given l l' i order pos
    → Takes (is_free l) (is_free l') (i * 512 + pos) (2 ^ order)
Takes-Given l l' i order pos h g =
    let (_, _, _, fits) =
      Claimed-lem (2 ^ order) (2 ^ (6 - order)) g.bits g.bits' pos (groups order h)
        g.old_agree.field g.claim in
    subst (λ m. Takes (is_free l) (is_free m) (i * 512 + pos) (2 ^ order)) (sym g.after)
      (Takes-child l i g.old g.new g.bits g.bits' g.before g.old_small g.not_huge pos (2 ^ order)
        fits (Claimed-clear order h g.bits g.bits' pos g.claim)
        (Claimed-set order h g.bits g.bits' pos g.claim))

-- The bits of a free run of a child.
free_bits :
    (l : Lower) (frame order : ℕ) (c : Child) (f : Bitfield)
    → HasChild l (frame / 512) c f
    → frame % 512 + 2 ^ order ≤ 512
    → AllFree (is_free l) frame (2 ^ order)
    → (c.huge ≡ false) × ((x : ℕ) → in_run (frame % 512) (2 ^ order) x ≡ true → frame_bit f x ≡ 0)
free_bits l frame order c f has fits free =
    let first = free frame (ground (arith, two_pow_pos order)) in
    let child = is_free-HasChild l (frame / 512) frame c f has refl in
    (
      ground (arith, first, child),
      λ x inside.
          let y = frame / 512 * 512 + x in
          let at : y / 512 ≡ frame / 512 = ground arith in
          let bit : y % 512 ≡ x = ground arith in
          let run : in_run frame (2 ^ order) y ≡ true = ground arith in
          ground (
            arith,
            free y run,
            is_free-HasChild l (frame / 512) y c f has at,
            ap (frame_bit f) bit,
          ),
    )

-- An entry that gives nothing has no free aligned run.
none_free :
    (l : Lower) (frame order : ℕ)
    → order ≤ 6
    → frame % 2 ^ order ≡ 0
    → Sound l (frame / 512)
    → GivesNone l (frame / 512) order
    → AllFree (is_free l) frame (2 ^ order)
    → ⊥
none_free l frame order h aligned s (c, at, why) free =
    let pos = frame % 512 in
    let (fits, aligned_pos) = aligned_in_child order frame h aligned in
    elim (s.kept) [
      | inr (behind, none_left) ↦
          let first = free frame (ground (arith, two_pow_pos order)) in
          ground (arith, first, is_free-behind l frame behind)
      | inl (f, has, agree) ↦
          let (small, clear) = free_bits l frame order s.child f has fits free in
          let (few, not_full) =
            free_run-few order f pos h agree.field (omega arith) aligned_pos clear in
          let same : c ≡ s.child = ground (arith, at, s.at) in
          let count = agree.counted small in
          let left = ap (λ (d : Child). d.free) same in
          elim why [
            | inl none_left ↦ omega (arith, two_pow_pos order)
            | inr (f', has', inl huge) ↦ ground (arith, same, small, huge)
            | inr (f', has', inr (inl less)) ↦ omega arith
            | inr (f', has', inr (inr full)) ↦
                let bits : f' ≡ f = ground (arith, has'.bits, has.bits) in
                not_full (
                  subst
                    (λ b.
                      (i v : ℕ) → get_elem? b i ≡ some v → IsFull (2 ^ order) (2 ^ (6 - order)) v)
                    bits full)
          ]
    ]

-- On a sound allocator of fewer than `2 ^ 63` frames, for an order up to 6 and a start inside of
-- it, `lower_get` without a given frame does not fail an assertion and does what an allocation from
-- the tree of the start promises: it returns an aligned run of frames of the tree that were free,
-- and exactly these are no longer free; or it changes nothing, reports that memory is out, and the
-- tree has no aligned run of free frames.
pub lower_get-Allocation :
    (l : Lower) (start_frame order : ℕ)
    → IsLower l
    → order ≤ 6
    → start_frame < l.frames
    → l.frames < 2 ^ 63
    → (r : Lower × Outcome) × (lower_get l start_frame order none ≡ some r)
      × Allocation (start_frame / 4096) (2 ^ order) l r
lower_get-Allocation l start_frame order sound h inside word =
    let (r, ran, end) = lower_get_lem l start_frame order sound h inside in
    elim end [
      | inl (i, pos, given, e, _, _, tree) ↦
          let (_, _, aligned, fits) =
            Claimed-lem (2 ^ order) (2 ^ (6 - order)) given.bits given.bits' pos (groups order h)
              given.old_agree.field given.claim in
          let frame : i * 512 % 2 ^ 64 + pos ≡ i * 512 + pos = omega arith in
          (
            r,
            ran,
            inl (
              i * 512 + pos,
              e ∙ ap (λ (x : ℕ). llfree_ok x 0) frame,
              omega (arith, two_pow_pos order),
              aligned_sum order i pos h aligned,
              Takes-Given l r.0 i order pos h given,
            ),
          )
      | inr (same, refuses) ↦ (
        r,
        ran,
        inr (
          same,
          λ frame tree aligned free.
              let i = frame / 512 in
              none_free l frame order h aligned (sound i (omega arith)) (refuses i (omega arith))
                free,
        ),
      )
    ]
