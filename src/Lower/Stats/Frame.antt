-- ===== src/Lower/Stats/Frame.antt =====
-- `lower_stats_at` of src/lower.c for one frame, against the set of free frames.
use llfree_c.Base.{
  ℕ, ◌/◌, ◌%◌, ◌^◌, ◌≤◌, ◌<◌, ◌≡◌, refl, ap, ◌∙◌, arith, Bool, true, false, ◌==◌, leb, ltb, some,
  Bool-cases, inl, inr,
}
use llfree_c.Child.{Child}
use llfree_c.Bitfield.{Bitfield}
use llfree_c.Bitfield.Field.{IsField, ones}
use llfree_c.Bitfield.Frames.{frame_bit, field_is_free-eq_bit}
use llfree_c.Bitfield.Claims.{free_run-few}
use llfree_c.Lower.State.{Lower, get_child}
use llfree_c.Lower.Stats.{Stats, flag, frame_stats, lower_stats_at}
use llfree_c.Lower.Single.{IsChild, HasChild}
use llfree_c.Lower.Invariant.{IsLower}
use llfree_c.Lower.Spec.{is_free}
use llfree_c.Lower.Sets.{is_free-HasChild, is_free-behind}
use llfree_c.Lower.Split.{no_bit}

-- A child with as few clear bits as free frames: none of its frames is free when it counts none.
full_bit :
    (f : Bitfield) (x : ℕ) → IsField f → x < 512 → 512 ≤ ones f → (frame_bit f x == 0) ≡ false
full_bit f x field h full = elim (Bool-cases (frame_bit f x == 0)) [
  | inr set ↦ set
  | inl clear ↦
      let eq : frame_bit f x ≡ 0 = ground arith in
      let (few, _) =
        free_run-few 0 f x (omega arith) field h (omega arith)
          (λ y inside. let same : y ≡ x = ground (arith, inside) in ap (frame_bit f) same ∙ eq) in
      absurd (omega (arith, few))
]

-- The statistics of one frame.
abbrev one_frame : Bool → Stats
one_frame b = record { free_frames = flag b; free_huge = 0; free_trees = 0 }

frame_stats_lem :
    (l : Lower) (frame : ℕ) (c : Child) (f : Bitfield)
    → frame < 2 ^ 64
    → HasChild l (frame / 512) c f
    → IsChild c f
    → frame_stats l frame ≡ some (one_frame (is_free l frame))
unfolding frame_stats
frame_stats_lem l frame c f word has agree =
    let set = is_free-HasChild l (frame / 512) frame c f has refl in
    let x = frame % 512 in
    let lt : x < 512 = omega arith in
    elim (Bool-cases (c.free == 512)) [
      | inl all ↦
          let whole : c.free ≡ 512 = ground arith in
          let small : c.huge ≡ false = not_huge (omega arith) in
          let clear = no_bit f x agree.field (omega (arith, agree.counted small)) in
          let free : (frame_bit f x == 0) ≡ true = ground (arith, clear) in
          rw (has.child, all, set, small, free) refl
      | inr part ↦ elim (Bool-cases (ltb 0 c.free)) [
        | inl some_free ↦
            let small : c.huge ≡ false = not_huge (ground arith) in
            rw
              (
                has.child,
                part,
                some_free,
                has.bits,
                field_is_free-eq_bit f x agree.field lt,
                set,
                small,
              )
              refl
        | inr none_free ↦ elim (Bool-cases c.huge) [
          | inl huge ↦ rw (has.child, part, none_free, set, huge) refl
          | inr small ↦
              let full =
                full_bit f x agree.field lt (ground (arith, agree.counted small, none_free)) in
              rw (has.child, part, none_free, set, small, full) refl
        ]
      ]
    ]
  where
    not_huge : 0 < c.free → c.huge ≡ false
    not_huge h = elim (Bool-cases c.huge) [
      | inr small ↦ small
      | inl huge ↦ absurd (omega (arith, (agree.whole huge).0))
    ]

frame_stats-behind :
    (l : Lower) (frame : ℕ) (c : Child)
    → get_child l (frame / 512) ≡ some c
    → c.free ≡ 0
    → is_free l frame ≡ false
    → frame_stats l frame ≡ some (one_frame (is_free l frame))
unfolding frame_stats
frame_stats-behind l frame c at none_free used =
    let part : (c.free == 512) ≡ false = ground arith in
    let gone : ltb 0 c.free ≡ false = ground arith in rw (at, part, gone, used) refl

-- On a sound allocator of fewer than `2 ^ 64` frames, for a frame inside of it, `lower_stats_at` of
-- order 0 does not fail an assertion and counts one free frame exactly when the frame is free by
-- its child and its bit, and no huge frame and no tree.
pub lower_stats_at-eq_free :
    (l : Lower) (frame : ℕ)
    → IsLower l
    → l.frames < 2 ^ 64
    → frame < l.frames
    → lower_stats_at l frame 0
      ≡ some (record { free_frames = flag (is_free l frame); free_huge = 0; free_trees = 0 })
unfolding lower_stats_at
lower_stats_at-eq_free l frame sound word inside =
    let s = sound (frame / 512) (omega arith) in
    let legal : leb l.frames frame ≡ false = ground arith in
    rw legal (elim (s.kept) [
      | inl (f, has, agree) ↦ frame_stats_lem l frame s.child f (omega arith) has agree
      | inr (behind, none_left) ↦
          frame_stats-behind l frame s.child s.at none_left (is_free-behind l frame behind)
    ])
