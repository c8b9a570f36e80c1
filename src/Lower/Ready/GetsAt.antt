-- ===== src/Lower/Ready/GetsAt.antt =====
-- `lower_get` of src/lower.c at a given frame, for the runs inside a row.
use mathlib.Core.Path.{subst}
use llfree_c.Base.{
  ℕ, ◌+◌, ◌-◌, ◌*◌, ◌/◌, ◌%◌, ◌^◌, ◌≤◌, ◌<◌, ◌≡◌, inl, inr, refl, ◌∙◌, arith, true, false, ◌&&◌,
  not, leb, leb-true, none, some, Bool-cases, get_elem?,
}
use llfree_c.Base.Bits.{two_pow_pos}
use llfree_c.Types.{Outcome, llfree_ok, llfree_err, ok, memory}
use llfree_c.Child.{Child, child_dec, child_inc}
use llfree_c.Child.Laws.{child_dec_lem, child_inc-child_dec}
use llfree_c.Bitfield.{Bitfield, field_toggle}
use llfree_c.Bitfield.Mark.{field_toggle-marks}
use llfree_c.Bitfield.Toggle.{aligned_in_child}
use llfree_c.Lower.State.{Lower, get_child}
use llfree_c.Lower.Get.{lower_get, lower_get_at}
use llfree_c.Lower.Update.{is_invalid}
use llfree_c.Lower.Single.{
  IsChild, HasChild, with_child, update_child-taken, update_child-refused, undo_dec_lem,
  HasChild-with_child, put_child-back, few,
}
use llfree_c.Lower.RoundTrip.{is_invalid-false}
use llfree_c.Lower.Sets.{Takes-child}
use llfree_c.Lower.Ready.{IsReady, Taken, Gets}
use llfree_c.Lower.Ready.Gets.{Taken-with_child}

-- The ways through the code: the counter refuses, the bits refuse, or both are taken.
module _ (l : Lower) (frame order : ℕ) (c : Child) (small : leb 9 order ≡ false)
    (valid : is_invalid l frame order ≡ false) (at : get_child l (frame / 512) ≡ some c) where
  get_at-refused :
      child_dec c order ≡ none → lower_get_at l frame order ≡ some (l, llfree_err memory)
  unfolding lower_get_at
  get_at-refused refused =
      rw (valid, small, update_child-refused child_dec l (frame / 512) order c at refused) refl

  get_at-hit :
      (d : Child) (f g : Bitfield)
      → get_elem? l.fields (frame / 512) ≡ some f
      → child_dec c order ≡ some d
      → field_toggle f (frame % 512) order false ≡ some (g, llfree_err ok)
      → lower_get_at l frame order ≡ some (with_child l (frame / 512) d g, llfree_ok frame 0)
  unfolding lower_get_at
  get_at-hit d f g bits taken done =
      rw (valid, small, update_child-taken child_dec l (frame / 512) order c d at taken, bits, done)
        refl

  get_at-miss :
      (d : Child) (f : Bitfield)
      → get_elem? l.fields (frame / 512) ≡ some f
      → child_dec c order ≡ some d
      → child_inc d order ≡ some c
      → field_toggle f (frame % 512) order false ≡ some (f, llfree_err memory)
      → lower_get_at l frame order ≡ some (l, llfree_err memory)
  unfolding lower_get_at
  get_at-miss d f bits taken back done =
      let has : HasChild l (frame / 512) c f = record { child = at; bits = bits } in
      let held = HasChild-with_child l (frame / 512) c d f f has in
      rw
        (
          valid,
          small,
          update_child-taken child_dec l (frame / 512) order c d at taken,
          bits,
          done,
          undo_dec_lem (with_child l (frame / 512) d f) (frame / 512) order d c held.child back,
          put_child-back l (frame / 512) c d f has,
        )
        refl

-- A child that agrees with its bits.
get_at-agree :
    (frames : ℕ) (l : Lower) (frame order : ℕ) (c : Child) (f : Bitfield)
    → IsReady frames l
    → order ≤ 6
    → is_invalid l frame order ≡ false
    → frame % 2 ^ order ≡ 0
    → HasChild l (frame / 512) c f
    → IsChild c f
    → (r : Lower × Outcome) × (lower_get_at l frame order ≡ some r)
      × Gets frames (some frame) (frame / 4096) (2 ^ order) l r
get_at-agree frames l frame order c f ready h valid aligned has agree =
    let n = 2 ^ order in
    let i = frame / 512 in
    let pos = frame % 512 in
    let small : leb 9 order ≡ false = ground arith in
    let (fits, aligned_pos) = aligned_in_child order frame h aligned in
    let law = child_dec_lem c order (omega arith) in
    elim (Bool-cases (not c.huge && leb n c.free)) [
      | inr refused ↦ (
        (l, llfree_err memory),
        get_at-refused l frame order c small valid has.child (law ∙ rw refused refl),
        inr refl,
      )
      | inl room ↦
          let d : Child = record c { free = c.free - n } in
          let taken : child_dec c order ≡ some d = law ∙ rw room refl in
          let not_huge : c.huge ≡ false = ground (arith, room) in
          let count : c.free ≡ c.free - n + n = ground (arith, room) in
          elim (field_toggle-marks f pos order agree.field h (omega (arith, two_pow_pos order))
            aligned_pos) [
              | inr refused ↦ (
                (l, llfree_err memory),
                get_at-miss l frame order c small valid has.child d f has.bits taken
                    (child_inc-child_dec c d order (omega arith) (few c f agree) taken) refused,
                inr refl,
              )
              | inl (g, done, m) ↦
                  let agree' : IsChild d g = record {
                    field = m.field;
                    counted = λ e. omega (arith, agree.counted not_huge, m.count, count);
                    whole = λ e. ground (arith, e, not_huge);
                  } in
                  let whole : i * 512 + pos ≡ frame = omega arith in
                  let tree : i / 8 ≡ frame / 4096 = omega arith in
                  let takes =
                    Takes-child l i c d f g has not_huge not_huge pos n fits m.was_clear m.now in
                  let got =
                    Taken-with_child frames l i pos order c d f g ready h has agree' count fits
                      aligned_pos takes in
                  (
                    (with_child l i d g, llfree_ok frame 0),
                    get_at-hit l frame order c small valid has.child d f g has.bits taken done,
                    inl (
                      frame,
                      refl,
                      subst (λ x. Taken frames l (with_child l i d g) (frame / 4096) n x) whole
                          (subst (λ t. Taken frames l (with_child l i d g) t n (i * 512 + pos)) tree
                            got),
                      refl,
                    ),
                  )
            ]
    ]

-- On a sound allocator with bits for all of its frames, none of them free behind the end, of fewer
-- than `2 ^ 41` frames, for an order up to 6 and an aligned run inside of it, `lower_get` of the
-- frame does not fail an assertion. Either it returns the frame, the run was free and exactly its
-- frames are no longer free, the counters of its tree count `2 ^ order` free frames fewer and those
-- of the others as many, and the allocator is sound; or it reports that memory is out and changes
-- nothing.
pub lower_get-Gets_at :
    (frames : ℕ) (l : Lower) (start_frame frame order : ℕ)
    → frames < 2 ^ 41
    → IsReady frames l
    → order ≤ 6
    → frame + 2 ^ order ≤ frames
    → frame % 2 ^ order ≡ 0
    → (r : Lower × Outcome) × (lower_get l start_frame order (some frame) ≡ some r)
      × Gets frames (some frame) (frame / 4096) (2 ^ order) l r
unfolding lower_get
lower_get-Gets_at frames l start_frame frame order few ready h inside aligned =
    let legal : leb order 12 ≡ true = leb-true _ _ (omega arith) in
    let valid =
      is_invalid-false l frame order (omega (arith, ready.size)) (omega (arith, ready.size))
        aligned in
    let s = ready.sound (frame / 512) (omega (arith, ready.size, two_pow_pos order)) in
    elim (s.kept) [
      | inr (behind, none_left) ↦ absurd (omega (arith, ready.bits, two_pow_pos order))
      | inl (f, has, agree) ↦
          let (r, ran, end) =
            get_at-agree frames l frame order s.child f ready h valid aligned has agree in
          (r, rw legal ran, end)
    ]
