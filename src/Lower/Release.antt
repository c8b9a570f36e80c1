-- ===== src/Lower/Release.antt =====
-- `lower_put` of src/lower.c, for the runs that lie inside a row, against the set of free frames.
use mathlib.Core.Path.{subst}
use llfree_c.Base.{
  ℕ, ◌+◌, ◌*◌, ◌/◌, ◌%◌, ◌^◌, ◌≤◌, ◌<◌, ◌≡◌, ◌⊎◌, inl, inr, refl, sym, ap, ◌∙◌, arith, Bool, true,
  false, if◌then◌else◌, ◌==◌, some, Bool-cases, get_elem?, get_elem?_of_lt, get_elem?-replicate,
  length, length-set,
}
use llfree_c.Base.Bits.{two_pow_pos}
use llfree_c.Types.{uint64_max, Outcome, llfree_err, ok, memory}
use llfree_c.Child.{Child, child_inc}
use llfree_c.Child.Laws.{child_inc_lem}
use llfree_c.Bitfield.{Bitfield, field_toggle}
use llfree_c.Bitfield.Bits.{bit-ones}
use llfree_c.Bitfield.Frames.{frame_bit, in_run, ones-le}
use llfree_c.Bitfield.Toggle.{aligned_in_child}
use llfree_c.Bitfield.Clear.{field_toggle-frees}
use llfree_c.Lower.State.{Lower}
use llfree_c.Lower.Put.{put_bits, put_small, lower_put}
use llfree_c.Lower.Single.{IsChild, HasChild, with_child, HasChild-with_child, put_field-same, few}
use llfree_c.Lower.Invariant.{IsLower, free_frames, IsLower-with_child, free_frames-with_child}
use llfree_c.Lower.RoundTrip.{put_bits_lem, put_small_lem, lower_put-small, is_invalid-false}
use llfree_c.Lower.Counts.{tree_free, tree_free-with_child}
use llfree_c.Lower.Spec.{is_free, Returns}
use llfree_c.Lower.Sets.{is_free-HasChild, is_free-with_child, Returns-child}
use llfree_c.Lower.Split.{used_up, full_field, full_field-IsChild, split_huge_lem}

-- The end of a freeing of `n` frames at `frame`: they were all in use and now are free, the
-- allocator is sound and counts `n` free frames more, in the tree of the frame; or some frame of the run was free, an error is
-- reported and nothing has changed.
abbrev pub Release : Lower → ℕ → ℕ → Lower × Outcome → Type 0
Release l frame n r =
    ((r.1 ≡ llfree_err ok)
      × Returns (is_free l) (is_free r.0) frame n
      × IsLower r.0
      × (free_frames r.0 ≡ free_frames l + n)
      × ((t : ℕ) → tree_free r.0 t ≡ tree_free l t + (if t == frame / 4096 then n else 0))
      × (r.0.frames ≡ l.frames)
      × (length r.0.fields ≡ length l.fields))
    ⊎ ((r ≡ (l, llfree_err memory))
        × (((x : ℕ) → in_run frame n x ≡ true → is_free l x ≡ false) → ⊥))

put_bits-refused :
    (l : Lower) (i pos order : ℕ) (f : Bitfield)
    → get_elem? l.fields i ≡ some f
    → field_toggle f pos order true ≡ some (f, llfree_err memory)
    → put_bits l i pos order ≡ some (l, llfree_err memory)
unfolding put_bits
put_bits-refused l i pos order f at refused = rw (at, refused, put_field-same l i f at) refl

tree_more :
    (a b old n t k m : ℕ)
    → k ≡ m
    → a + (if t == k then old else 0) ≡ b + (if t == k then old + n else 0)
    → a ≡ b + (if t == m then n else 0)
tree_more a b old n t k m same e = ground (arith, e, same)

-- A child that is not huge: its bits decide.
put_bits-Release :
    (l : Lower) (i pos order : ℕ) (c : Child) (f : Bitfield)
    → IsLower l
    → HasChild l i c f
    → IsChild c f
    → c.huge ≡ false
    → order ≤ 6
    → pos + 2 ^ order ≤ 512
    → pos % 2 ^ order ≡ 0
    → (r : Lower × Outcome) × (put_bits l i pos order ≡ some r)
      × Release l (i * 512 + pos) (2 ^ order) r
put_bits-Release l i pos order c f sound has agree small h fits aligned =
    let n = 2 ^ order in
    elim (field_toggle-frees f pos order agree.field h (omega (arith, two_pow_pos order)) aligned) [
      | inl (g, done, freed) ↦
          let d : Child = record { free = c.free + n; huge = c.huge } in
          let count = agree.counted small in
          let up : child_inc c order ≡ some d = ground (
            arith,
            child_inc_lem c order (omega arith) (few c f agree),
            freed.count,
            ones-le f agree.field,
            small,
          ) in
          let agree' : IsChild d g = record {
            field = freed.field;
            counted = λ e. omega (arith, freed.count);
            whole = λ e. ground (arith, e, small);
          } in
          (
            (with_child l i d g, llfree_err ok),
            put_bits_lem l i pos order c d f g has done up,
            inl (
              refl,
              Returns-child l i c d f g has small small pos n fits freed.was_set freed.now,
              IsLower-with_child l i c d f g sound has agree',
              omega (arith, free_frames-with_child l i c d f g has),
              λ t.
                  tree_more (tree_free (with_child l i d g) t) (tree_free l t) c.free n t (i / 8)
                    ((i * 512 + pos) / 4096) (omega (arith, two_pow_pos order))
                    (tree_free-with_child l i t c d f g has),
              refl,
              length-set l.fields i g,
            ),
          )
      | inr (refused, part) ↦ (
        (l, llfree_err memory),
        put_bits-refused l i pos order f has.bits refused,
        inr (
          refl,
          λ used. part (λ x inside.
              let y = i * 512 + x in
              let at : y / 512 ≡ i = ground arith in
              let bit : y % 512 ≡ x = ground arith in
              let run : in_run (i * 512 + pos) n y ≡ true = ground arith in
              ground (
                arith,
                used y run,
                is_free-HasChild l i y c f has at,
                ap (frame_bit f) bit,
                small,
              )),
        ),
      )
    ]

-- A child that is a huge page is split first, which changes no frame.
put_small-huge :
    (l : Lower) (frame order : ℕ) (c : Child) (f : Bitfield)
    → HasChild l (frame / 512) c f
    → IsChild c f
    → c.huge ≡ true
    → put_small l frame order
      ≡ put_bits (with_child l (frame / 512) used_up full_field) (frame / 512) (frame % 512) order
unfolding put_small
put_small-huge l frame order c f has agree huge =
    rw (has.child, split_huge_lem l (frame / 512) c f has agree huge, huge) refl

full : (x : ℕ) → x < 512 → (frame_bit full_field x == 0) ≡ false
full x h =
    let (v, at) = get_elem?_of_lt full_field (x / 64) (omega arith) in
    let word = get_elem?-replicate 8 (x / 64) uint64_max v at in
    let one = bit-ones 64 0 (x % 64) (omega arith) in ground (arith, at, word, one)

is_free-split :
    (l : Lower) (i x : ℕ) (c : Child) (f : Bitfield)
    → HasChild l i c f
    → c.huge ≡ true
    → is_free (with_child l i used_up full_field) x ≡ is_free l x
is_free-split l i x c f has huge = elim (Bool-cases (x / 512 == i)) [
  | inr other ↦ is_free-with_child l i x used_up full_field (ground arith)
  | inl same ↦
      let at : x / 512 ≡ i = ground arith in
      is_free-HasChild _ i x used_up full_field (HasChild-with_child l i c used_up f full_field has)
        at
      ∙ full (x % 512) (omega arith)
      ∙ sym (is_free-HasChild l i x c f has at ∙ rw huge refl)
]

-- What was released from the split page was released from the page.
Release-split :
    (l : Lower) (i frame n : ℕ) (c : Child) (f : Bitfield) (r : Lower × Outcome)
    → HasChild l i c f
    → IsChild c f
    → c.huge ≡ true
    → frame / 512 ≡ i
    → frame % 512 + n ≤ 512
    → Release (with_child l i used_up full_field) frame n r
    → Release l frame n r
Release-split l i frame n c f r has agree huge at fits
      (inl (e, returns, sound, count, counted, size, bits)) =
    inl (
      e,
      record {
        was_used = λ x inside. sym (is_free-split l i x c f has huge) ∙ returns.was_used x inside;
        now = λ x.
            returns.now x
            ∙ ap (λ (b : Bool). if in_run frame n x then true else b)
                (is_free-split l i x c f has huge);
      },
      sound,
      omega (arith, free_frames-with_child l i c used_up f full_field has, agree.whole huge),
      λ t. counted t ∙ ap (λ (k : ℕ). k + (if t == frame / 4096 then n else 0)) (same_tree t),
      size,
      bits ∙ length-set l.fields i full_field,
    )
  where
    same_tree : (t : ℕ) → tree_free (with_child l i used_up full_field) t ≡ tree_free l t
    same_tree t =
        ground (arith, tree_free-with_child l i t c used_up f full_field has, agree.whole huge)
Release-split l i frame n c f r has agree huge at fits (inr (same, part)) = absurd (
    part (λ x inside.
      let here : x / 512 ≡ i = ground arith in
      is_free-split l i x c f has huge ∙ is_free-HasChild l i x c f has here ∙ rw huge refl))

-- On a sound allocator with bits for all of its frames, of fewer than `2 ^ 64` frames, for an order
-- up to 6 and an aligned run inside of it, `lower_put` does not fail an assertion. When every frame
-- of the run is in use, exactly these become free, also those of a huge page, the allocator is
-- sound and its counters count `2 ^ order` free frames more, those of the tree of the frame;
-- otherwise it reports an error and changes nothing.
pub lower_put-Release :
    (l : Lower) (frame order : ℕ)
    → IsLower l
    → l.frames ≤ length l.fields * 512
    → l.frames < 2 ^ 64
    → order ≤ 6
    → frame + 2 ^ order ≤ l.frames
    → frame % 2 ^ order ≡ 0
    → (r : Lower × Outcome) × (lower_put l frame order ≡ some r) × Release l frame (2 ^ order) r
lower_put-Release l frame order sound bits word h inside aligned =
    let i = frame / 512 in
    let pos = frame % 512 in
    let whole : i * 512 + pos ≡ frame = omega arith in
    let s = sound i (omega (arith, two_pow_pos order)) in
    let (fits, aligned_pos) = aligned_in_child order frame h aligned in
    let small =
      lower_put-small l frame order h (is_invalid-false l frame order inside word aligned) in
    elim (s.kept) [
      | inr (behind, none_left) ↦ absurd (omega (arith, two_pow_pos order))
      | inl (f, has, agree) ↦ elim (Bool-cases s.child.huge) [
        | inr single ↦
            let (r, done, release) =
              put_bits-Release l i pos order s.child f sound has agree single h fits aligned_pos in
            (
              r,
              small ∙ put_small_lem l frame order s.child has.child single ∙ done,
              subst (λ x. Release l x (2 ^ order) r) whole release,
            )
        | inl huge ↦
            let m = with_child l i used_up full_field in
            let sound' =
              IsLower-with_child l i s.child used_up f full_field sound has full_field-IsChild in
            let held = HasChild-with_child l i s.child used_up f full_field has in
            let (r, done, release) =
              put_bits-Release m i pos order used_up full_field sound' held full_field-IsChild refl
                h fits aligned_pos in
            (
              r,
              small ∙ put_small-huge l frame order s.child f has agree huge ∙ done,
              Release-split l i frame (2 ^ order) s.child f r has agree huge refl fits
                  (subst (λ x. Release m x (2 ^ order) r) whole release),
            )
      ]
    ]
