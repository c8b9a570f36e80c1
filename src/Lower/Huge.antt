-- ===== src/Lower/Huge.antt =====
-- `try_update_huge_n` of src/lower.c where every child of the group is as expected, and the huge
-- allocation of `lower_get_at` by it.
use mathlib.Core.Path.{subst}
use llfree_c.Base.{
  ℕ, zero, suc, ◌+◌, ◌-◌, ◌/◌, ◌%◌, ◌^◌, ◌≤◌, ◌<◌, ◌≡◌, ◌≢◌, ◌⊎◌, inl, inr, refl, sym, ◌∙◌, arith,
  true, some, leb, ltb, leb-true, ==-true, Bool-cases,
}
use llfree_c.Utils.Align.{align_down_lem}
use llfree_c.Lower.Put.{put_huge, lower_put}
use llfree_c.Types.{llfree_ok, llfree_err, ok}
use llfree_c.Child.{Child, child_new}
use llfree_c.Lower.State.{Lower, get_child, put_child}
use llfree_c.Lower.Update.{update_huge, try_update_huge_n}
use llfree_c.Lower.Get.{lower_get_at}
use llfree_c.Lower.Undo.{
  all_free, allocated, exchange_child-hit, get_child-put_self, get_child-put_ne,
}
use llfree_c.Lower.RoundTrip.{is_invalid-false}

-- The entries from `base + j` on, `left` of them, are `c`.
abbrev pub AllAre : Lower → ℕ → ℕ → ℕ → Child → Type 0
AllAre l base j left c = (k : ℕ) → k < left → get_child l (base + (j + k)) ≡ some c

-- Outside of these entries `l'` has those of `l`.
abbrev pub SameOutside : Lower → Lower → ℕ → ℕ → ℕ → Type 0
SameOutside l l' base j left =
    (i : ℕ) → (i < base + j) ⊎ (base + (j + left) ≤ i) → get_child l' i ≡ get_child l i

update_huge-all :
    (left base j : ℕ) (e d : Child) (l : Lower)
    → AllAre l base j left e
    → (l' : Lower) × (update_huge left base j e d l ≡ some (l', true))
      × AllAre l' base j left d
      × SameOutside l l' base j left
      × (l'.fields ≡ l.fields)
      × (l'.frames ≡ l.frames)
unfolding update_huge
update_huge-all zero base j e d l all =
    (l, refl, λ k h. absurd (omega arith), λ i out. refl, refl, refl)
update_huge-all (suc left) base j e d l all =
    let at : base + (j + 0) ≡ base + j = omega arith in
    let first : get_child l (base + j) ≡ some e =
      subst (λ i. get_child l i ≡ some e) at (all 0 (omega arith)) in
    let l1 = put_child l (base + j) d in
    let rest : AllAre l1 base (j + 1) left e = λ k h.
      let next : base + (j + suc k) ≡ base + (j + 1 + k) = omega arith in
      get_child-put_ne l (base + j) (base + (j + 1 + k)) d (omega arith)
      ∙ subst (λ i. get_child l i ≡ some e) next (all (suc k) (omega arith)) in
    let (l', done, changed, same, fields, frames) = update_huge-all left base (j + 1) e d l1 rest in
    (
      l',
      rw (exchange_child-hit l (base + j) e d first) done,
      each l1 l' changed same (get_child-put_self l (base + j) e d first),
      λ i out. same i (wider i out) ∙ get_child-put_ne l (base + j) i d (apart i out),
      fields,
      frames,
    )
  where
    each :
        (l1 l' : Lower)
        → AllAre l' base (j + 1) left d
        → SameOutside l1 l' base (j + 1) left
        → get_child l1 (base + j) ≡ some d
        → AllAre l' base j (suc left) d
    each l1 l' changed same here zero h =
        let at : base + (j + 0) ≡ base + j = omega arith in
        rw at (same (base + j) (inl (omega arith)) ∙ here)
    each l1 l' changed same here (suc k) h =
        let next : base + (j + suc k) ≡ base + (j + 1 + k) = omega arith in
        rw next (changed k (omega arith))

    wider :
        (i : ℕ)
        → (i < base + j) ⊎ (base + (j + suc left) ≤ i)
        → (i < base + (j + 1)) ⊎ (base + (j + 1 + left) ≤ i)
    wider i (inl below) = inl (omega arith)
    wider i (inr above) = inr (omega arith)

    apart : (i : ℕ) → (i < base + j) ⊎ (base + (j + suc left) ≤ i) → base + j ≢ i
    apart i (inl below) = omega arith
    apart i (inr above) = omega arith

-- For an order from 9 to 12 and an aligned frame whose run lies in the allocator, which has fewer
-- than `2 ^ 64` frames, when every child of the run is entirely free, `lower_get_at` succeeds with
-- that frame: every child of the run is allocated as a huge page, and all other entries, the bits
-- and the number of frames are as they were.
pub lower_get_at-huge_lem :
    (l : Lower) (frame order : ℕ)
    → 9 ≤ order
    → order ≤ 12
    → frame % 2 ^ order ≡ 0
    → frame + 2 ^ order ≤ l.frames
    → l.frames < 2 ^ 64
    → AllAre l (frame / 512) 0 (2 ^ (order - 9)) all_free
    → (l' : Lower) × (lower_get_at l frame order ≡ some (l', llfree_ok frame 0))
      × AllAre l' (frame / 512) 0 (2 ^ (order - 9)) allocated
      × SameOutside l l' (frame / 512) 0 (2 ^ (order - 9))
      × (l'.fields ≡ l.fields)
      × (l'.frames ≡ l.frames)
unfolding lower_get_at try_update_huge_n child_new
lower_get_at-huge_lem l frame order large small aligned inside word all =
    let (l', done, changed, same, fields, frames) =
      update_huge-all (2 ^ (order - 9)) (frame / 512) 0 all_free allocated l all in
    let huge : leb 9 order ≡ true = leb-true _ _ large in
    (
      l',
      rw (is_invalid-false l frame order inside word aligned, huge) (rw done refl),
      changed,
      same,
      fields,
      frames,
    )

-- An aligned run of children starts at a multiple of its length.
group_aligned : (k frame : ℕ) → k ≤ 3 → frame % 2 ^ (9 + k) ≡ 0 → frame / 512 % 2 ^ k ≡ 0
group_aligned zero frame h e = omega arith
group_aligned (suc zero) frame h e = omega arith
group_aligned (suc (suc zero)) frame h e = omega arith
group_aligned (suc (suc (suc zero))) frame h e = omega arith
group_aligned k frame h e = absurd (omega arith)

put_huge-all :
    (l l' : Lower) (c k : ℕ)
    → k ≤ 3
    → c < 2 ^ 64
    → c % 2 ^ k ≡ 0
    → update_huge (2 ^ k) c 0 allocated all_free l ≡ some (l', true)
    → put_huge l c (2 ^ k) ≡ some (l', llfree_err ok)
unfolding put_huge try_update_huge_n child_new
put_huge-all l l' c k h word aligned done =
    let base : c - c % 2 ^ k ≡ c = omega arith in
    rw (align_down_lem c k (omega arith) word, base, ==-true c c refl) (rw done refl)

-- For an order from 9 to 12 and an aligned frame whose run lies in the allocator, which has fewer
-- than `2 ^ 64` frames, when every child of the run is allocated as a huge page, `lower_put` of the
-- frame succeeds: every child of the run is entirely free, and all other entries, the bits and the
-- number of frames are as they were.
pub lower_put-huge_lem :
    (l : Lower) (frame order : ℕ)
    → 9 ≤ order
    → order ≤ 12
    → frame % 2 ^ order ≡ 0
    → frame + 2 ^ order ≤ l.frames
    → l.frames < 2 ^ 64
    → AllAre l (frame / 512) 0 (2 ^ (order - 9)) allocated
    → (l' : Lower) × (lower_put l frame order ≡ some (l', llfree_err ok))
      × AllAre l' (frame / 512) 0 (2 ^ (order - 9)) all_free
      × SameOutside l l' (frame / 512) 0 (2 ^ (order - 9))
      × (l'.fields ≡ l.fields)
      × (l'.frames ≡ l.frames)
unfolding lower_put
lower_put-huge_lem l frame order large small aligned inside word all =
    let (l', done, changed, same, fields, frames) =
      update_huge-all (2 ^ (order - 9)) (frame / 512) 0 allocated all_free l all in
    let width : order ≡ 9 + (order - 9) = omega arith in
    let group : frame / 512 % 2 ^ (order - 9) ≡ 0 =
      group_aligned (order - 9) frame (omega arith)
        (subst (λ n. frame % 2 ^ n ≡ 0) width aligned) in
    let huge : leb 9 order ≡ true = leb-true _ _ large in
    let legal : leb order 12 ≡ true = leb-true _ _ small in
    (
      l',
      rw (legal, is_invalid-false l frame order inside word aligned, huge)
          (put_huge-all l l' (frame / 512) (order - 9) (omega arith) (omega arith) group done),
      changed,
      same,
      fields,
      frames,
    )

-- An entry is one of the run or outside of it.
position :
    (base n i : ℕ)
    → ((k : ℕ) × (k < n) × (i ≡ base + (0 + k))) ⊎ ((i < base + 0) ⊎ (base + (0 + n) ≤ i))
position base n i = elim (Bool-cases (ltb i base)) [
  | inl below ↦ inr (inl (ground arith))
  | inr other ↦ elim (Bool-cases (ltb i (base + n))) [
    | inl inside ↦ inl (i - base, ground arith, ground arith)
    | inr above ↦ inr (inr (ground arith))
  ]
]

-- For an order from 9 to 12 and an aligned frame whose run lies in the allocator, which has fewer
-- than `2 ^ 64` frames, when every child of the run is entirely free, `lower_get_at` of the frame
-- and then `lower_put` of it succeed, and after them every entry and all bits are those of before.
pub lower_put-lower_get_at_huge :
    (l : Lower) (frame order : ℕ)
    → 9 ≤ order
    → order ≤ 12
    → frame % 2 ^ order ≡ 0
    → frame + 2 ^ order ≤ l.frames
    → l.frames < 2 ^ 64
    → AllAre l (frame / 512) 0 (2 ^ (order - 9)) all_free
    → (l' l'' : Lower) × (lower_get_at l frame order ≡ some (l', llfree_ok frame 0))
      × (lower_put l' frame order ≡ some (l'', llfree_err ok))
      × ((i : ℕ) → get_child l'' i ≡ get_child l i)
      × (l''.fields ≡ l.fields)
lower_put-lower_get_at_huge l frame order large small aligned inside word all =
    let (l', taken, changed, same, fields, frames) =
      lower_get_at-huge_lem l frame order large small aligned inside word all in
    let room : frame + 2 ^ order ≤ l'.frames = omega (arith, frames) in
    let few : l'.frames < 2 ^ 64 = omega (arith, frames) in
    let (l'', put, restored, kept, fields', _) =
      lower_put-huge_lem l' frame order large small aligned room few changed in
    let n = 2 ^ (order - 9) in
    (
      l',
      l'',
      taken,
      put,
      λ i. elim (position (frame / 512) n i) [
        | inl (k, inside_run, at) ↦ rw at (restored k inside_run ∙ sym (all k inside_run))
        | inr out ↦ kept i out ∙ same i out
      ],
      fields' ∙ fields,
    )
