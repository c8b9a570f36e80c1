-- ===== src/Lower/Ready/Gets.antt =====
-- `lower_get` of src/lower.c without a given frame, for the runs inside a row.
use mathlib.Core.Path.{subst}
use llfree_c.Base.{
  ℕ, ◌+◌, ◌-◌, ◌*◌, ◌/◌, ◌%◌, ◌^◌, ◌≤◌, ◌<◌, ◌≡◌, inl, inr, refl, sym, ap, ◌∙◌, arith, true, false,
  ◌==◌, if◌then◌else◌, none, some, length-set, Bool-cases, Bool, ltb, lt_of_ltb-true,
  le_of_ltb-false,
}
use llfree_c.Base.Bits.{two_pow_pos}
use llfree_c.Types.{Outcome, llfree_ok}
use llfree_c.Child.{Child}
use llfree_c.Bitfield.{Bitfield}
use llfree_c.Bitfield.Frames.{in_run}
use llfree_c.Bitfield.SetNext.{Claimed-lem, groups}
use llfree_c.Lower.State.{Lower}
use llfree_c.Lower.Get.{lower_get}
use llfree_c.Lower.Single.{IsChild, HasChild, with_child}
use llfree_c.Lower.Invariant.{IsLower-with_child}
use llfree_c.Lower.GetSmall.{lower_get_lem}
use llfree_c.Lower.RoundTrip.{aligned_sum}
use llfree_c.Lower.Spec.{is_free, Takes}
use llfree_c.Lower.Refine.{Takes-Given}
use llfree_c.Lower.Counts.{tree_free, tree_free-with_child}
use llfree_c.Lower.Ready.{IsReady, Taken, Gets}

-- A child that has given a run away.
pub Taken-with_child :
    (frames : ℕ) (l : Lower) (i pos order : ℕ) (c d : Child) (f g : Bitfield)
    → IsReady frames l
    → order ≤ 6
    → HasChild l i c f
    → IsChild d g
    → c.free ≡ d.free + 2 ^ order
    → pos + 2 ^ order ≤ 512
    → pos % 2 ^ order ≡ 0
    → Takes (is_free l) (is_free (with_child l i d g)) (i * 512 + pos) (2 ^ order)
    → Taken frames l (with_child l i d g) (i / 8) (2 ^ order) (i * 512 + pos)
Taken-with_child frames l i pos order c d f g ready h has agree count fits aligned takes =
    let n = 2 ^ order in
    let l' = with_child l i d g in
    record {
      ready = record {
        size = ready.size;
        sound = IsLower-with_child l i c d f g ready.sound has agree;
        bits = length-set l.fields i g ∙ ready.bits;
        ends = λ x behind. takes.now x ∙ gone x (in_run (i * 512 + pos) n x) (ready.ends x behind);
      };
      takes = takes;
      frame_lt = elim (Bool-cases (ltb (i * 512 + pos) frames)) [
        | inl inside ↦ lt_of_ltb-true _ _ inside
        | inr behind ↦
            let first = takes.was_free (i * 512 + pos) (ground (arith, two_pow_pos order)) in
            ground (arith, first, ready.ends (i * 512 + pos) (le_of_ltb-false _ _ behind))
      ];
      tree_at = omega (arith, two_pow_pos order);
      aligned = aligned_sum order i pos h aligned;
      counters = λ t. split t (t == i / 8) (tree_free-with_child l i t c d f g has);
    }
  where
    gone : (x : ℕ) (b : Bool) → is_free l x ≡ false → (if b then false else is_free l x) ≡ false
    gone x true e = refl
    gone x false e = e

    split :
        (t : ℕ) (b : Bool)
        → tree_free (with_child l i d g) t + (if b then c.free else 0)
          ≡ tree_free l t + (if b then d.free else 0)
        → tree_free (with_child l i d g) t + (if b then 2 ^ order else 0) ≡ tree_free l t
    split t true e = omega (arith, e, count)
    split t false e = omega (arith, e)

-- Without a given frame.
pub lower_get-Gets :
    (frames : ℕ) (l : Lower) (start_frame order : ℕ)
    → frames < 2 ^ 41
    → IsReady frames l
    → order ≤ 6
    → start_frame < frames
    → (r : Lower × Outcome) × (lower_get l start_frame order none ≡ some r)
      × Gets frames none (start_frame / 4096) (2 ^ order) l r
lower_get-Gets frames l start_frame order few ready h inside =
    let (r, ran, end) =
      lower_get_lem l start_frame order ready.sound h (omega (arith, ready.size)) in
    (
      r,
      ran,
      elim end [
        | inr (same, _) ↦ inr same
        | inl (i, pos, g, e, _, _, tree) ↦
            let (_, _, aligned, fits) =
              Claimed-lem (2 ^ order) (2 ^ (6 - order)) g.bits g.bits' pos (groups order h)
                g.old_agree.field g.claim in
            let after = sym g.after in
            let takes =
              subst (λ m. Takes (is_free l) (is_free m) (i * 512 + pos) (2 ^ order)) g.after
                (Takes-Given l r.0 i order pos h g) in
            let taken =
              Taken-with_child frames l i pos order g.old g.new g.bits g.bits' ready h g.before
                g.agree g.counter fits aligned takes in
            let whole : i / 8 ≡ start_frame / 4096 = omega (arith, tree) in
            let frame : i * 512 % 2 ^ 64 + pos ≡ i * 512 + pos = omega (arith, taken.frame_lt) in
            inl (
              i * 512 + pos,
              e ∙ ap (λ (x : ℕ). llfree_ok x 0) frame,
              subst (λ m. Taken frames l m (start_frame / 4096) (2 ^ order) (i * 512 + pos)) after
                  (subst
                    (λ t.
                      Taken frames l (with_child l i g.new g.bits') t (2 ^ order) (i * 512 + pos))
                    whole taken),
              tt,
            )
      ],
    )
