-- ===== src/Lower/Claim.antt =====
-- The round of `lower_get` in src/lower.c that tries one child, for the runs inside a row.
use llfree_c.Base.{
  ℕ, ◌+◌, ◌-◌, ◌^◌, ◌≡◌, ◌≤◌, ◌<◌, ◌⊎◌, inl, inr, refl, ◌∙◌, ap, arith, true, false, some, none,
  Option, Option-cases, Bool-cases, get_elem?,
}
use llfree_c.Base.Bits.{two_pow_pos}
use llfree_c.Types.{Outcome, llfree_ok, llfree_err, memory}
use llfree_c.Utils.{frame_from_child}
use llfree_c.Child.{Child, child_dec, child_inc}
use llfree_c.Child.Laws.{child_dec_lem, child_inc-child_dec}
use llfree_c.Bitfield.{Bitfield, field_set_next}
use llfree_c.Bitfield.SetNext.{Claimed, field_set_next_lem, Claimed-lem, groups}
use llfree_c.Bitfield.FirstZeros.Spec.{IsFull}
use llfree_c.Lower.State.{Lower, get_child}
use llfree_c.Lower.Get.{get_in_child}
use llfree_c.Lower.Single.{
  IsChild, HasChild, with_child, update_child-taken, update_child-refused, undo_dec_lem,
  HasChild-with_child, put_child-back, few,
}

-- Child `i` has given `2 ^ order` frames away, at the place `pos` of its bits.
pub record Given (l l' : Lower) (i order pos : ℕ) : Type 0 where
  pub old : Child
  pub bits : Bitfield
  pub new : Child
  pub bits' : Bitfield
  pub before : HasChild l i old bits
  pub after : l' ≡ with_child l i new bits'
  pub agree : IsChild new bits'
  pub old_agree : IsChild old bits
  pub old_small : old.huge ≡ false
  pub not_huge : new.huge ≡ false
  pub back : child_inc new order ≡ some old
  pub counter : old.free ≡ new.free + 2 ^ order
  pub claim : Claimed (2 ^ order) (2 ^ (6 - order)) bits bits' pos

-- Why a child gives nothing: it is huge, it has too few frames, or no aligned run is free.
abbrev pub Refuses : Child → Bitfield → ℕ → Type 0
Refuses c f order =
    (c.huge ≡ true)
    ⊎ ((c.free < 2 ^ order)
        ⊎ ((i v : ℕ) → get_elem? f i ≡ some v → IsFull (2 ^ order) (2 ^ (6 - order)) v))

-- The three ways through the round.
pub get_in_child-refused :
    (l : Lower) (i start_frame order : ℕ) (c : Child)
    → get_child l i ≡ some c
    → child_dec c order ≡ none
    → get_in_child start_frame order i l ≡ some (l, none)
unfolding get_in_child
get_in_child-refused l i start_frame order c at refused =
    rw (update_child-refused child_dec l i order c at refused) refl

get_in_child-hit :
    (l : Lower) (i start_frame order pos : ℕ) (c d : Child) (f g : Bitfield)
    → HasChild l i c f
    → child_dec c order ≡ some d
    → field_set_next f start_frame order ≡ some (g, llfree_ok pos 0)
    → get_in_child start_frame order i l
      ≡ some (with_child l i d g, some (llfree_ok (frame_from_child i + pos) 0))
unfolding get_in_child
get_in_child-hit l i start_frame order pos c d f g has taken found =
    rw (update_child-taken child_dec l i order c d has.child taken, has.bits, found) refl

get_in_child-miss :
    (l : Lower) (i start_frame order : ℕ) (c d : Child) (f : Bitfield)
    → HasChild l i c f
    → child_dec c order ≡ some d
    → child_inc d order ≡ some c
    → field_set_next f start_frame order ≡ some (f, llfree_err memory)
    → get_in_child start_frame order i l ≡ some (l, none)
unfolding get_in_child
get_in_child-miss l i start_frame order c d f has taken back none_free =
    let held = HasChild-with_child l i c d f f has in
    rw
      (
        update_child-taken child_dec l i order c d has.child taken,
        has.bits,
        none_free,
        undo_dec_lem (with_child l i d f) i order d c held.child back,
        put_child-back l i c d f has,
      )
      refl

-- A child without frames is refused.
pub empty_dec : (c : Child) (order : ℕ) → order ≤ 6 → c.free ≡ 0 → child_dec c order ≡ none
empty_dec c order h none_left =
    ground (arith, two_pow_pos order, child_dec_lem c order (omega arith))

few_frames :
    (c : Child) (f : Bitfield) (order : ℕ)
    → order ≤ 6
    → child_dec c order ≡ none
    → Refuses c f order
few_frames c f order h refused = elim (Bool-cases c.huge) [
  | inl huge ↦ inl huge
  | inr small ↦ inr (inl (ground (arith, small, refused, child_dec_lem c order (omega arith))))
]

-- A claim in the bits, with the counter already down.
Given-claim :
    (l : Lower) (i order pos : ℕ) (c d : Child) (f g : Bitfield)
    → order ≤ 6
    → HasChild l i c f
    → IsChild c f
    → child_dec c order ≡ some d
    → Claimed (2 ^ order) (2 ^ (6 - order)) f g pos
    → Given l (with_child l i d g) i order pos
Given-claim l i order pos c d f g h has agree taken claim =
    let (field, more, _, _) =
      Claimed-lem (2 ^ order) (2 ^ (6 - order)) f g pos (groups order h) agree.field claim in
    let down = child_dec_lem c order (omega arith) in
    let small : c.huge ≡ false = ground (arith, taken, down) in
    let less : c.free ≡ d.free + 2 ^ order = ground (arith, taken, down, small) in
    let same : d.huge ≡ false = ground (arith, taken, down, small) in
    record {
      old = c;
      bits = f;
      new = d;
      bits' = g;
      before = has;
      after = refl;
      agree = record {
        field = field;
        counted = λ e. omega (arith, agree.counted small);
        whole = λ e. ground (arith, same, e);
      };
      old_agree = agree;
      old_small = small;
      not_huge = same;
      back = child_inc-child_dec c d order (omega arith) (few c f agree) taken;
      counter = less;
      claim = claim;
    }

-- On a child whose counter and bits agree, for an order up to 6, the round of `lower_get` that
-- tries the child does not fail an assertion. Either it gives a free aligned run of the child away,
-- counted and marked, with counter and bits in agreement; or the child is huge, has too few frames
-- or has no free aligned run, and the allocator is as it was.
pub get_in_child_lem :
    (l : Lower) (i start_frame order : ℕ) (c : Child) (f : Bitfield)
    → order ≤ 6
    → HasChild l i c f
    → IsChild c f
    → (r : Lower × Option Outcome) × (get_in_child start_frame order i l ≡ some r)
      × (((pos : ℕ) × Given l r.0 i order pos
            × (r.1 ≡ some (llfree_ok (frame_from_child i + pos) 0)))
          ⊎ ((r ≡ (l, none)) × Refuses c f order))
get_in_child_lem l i start_frame order c f h has agree = elim (Option-cases (child_dec c order)) [
  | inl refused ↦ (
    (l, none),
    get_in_child-refused l i start_frame order c has.child refused,
    inr (refl, few_frames c f order h refused),
  )
  | inr (d, taken) ↦
      let (r, found, searched) = field_set_next_lem f start_frame order agree.field h in
      elim searched [
        | inl (pos, claim, e) ↦
            let hit : field_set_next f start_frame order ≡ some (r.0, llfree_ok pos 0) =
              found ∙ ap (λ (o : Outcome). some (r.0, o)) e in
            (
              _,
              get_in_child-hit l i start_frame order pos c d f r.0 has taken hit,
              inl (pos, Given-claim l i order pos c d f r.0 h has agree taken claim, refl),
            )
        | inr (e, full) ↦
            let back = child_inc-child_dec c d order (omega arith) (few c f agree) taken in
            (
              (l, none),
              get_in_child-miss l i start_frame order c d f has taken back (found ∙ ap some e),
              inr (refl, inr (inr full)),
            )
      ]
]
