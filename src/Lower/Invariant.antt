-- ===== src/Lower/Invariant.antt =====
-- The invariant of src/lower.c, child by child, and what a small allocation makes of it.
use llfree_c.Base.{
  ℕ, ◌+◌, ◌^◌, ◌*◌, ◌/◌, ◌≡◌, ◌≢◌, ◌<◌, ◌≤◌, ◌⊎◌, inl, inr, ◌∙◌, arith, some, Bool-cases, ◌==◌,
  total, total-set, get_elem?-set_ne, length, length-set,
}
use mathlib.Core.Path.{subst}
use llfree_c.Child.{Child}
use llfree_c.Bitfield.{Bitfield}
use llfree_c.Lower.State.{Lower, child_count, get_child}
use llfree_c.Lower.Undo.{get_child-eq-some, get_child-put_ne}
use llfree_c.Lower.Single.{IsChild, HasChild, with_child, HasChild-with_child}
use llfree_c.Lower.Claim.{Given}

-- The number of entries: eight for each tree that has a frame.
abbrev pub entry_count : Lower → ℕ
entry_count l = ((l.frames + 511) / 512 + 7) / 8 * 8

-- An entry has bits and agrees with them, or it stands behind the last child and has no free frame.
pub record Sound (l : Lower) (i : ℕ) : Type 0 where
  pub child : Child
  pub at : get_child l i ≡ some child
  pub kept :
      ((f : Bitfield) × HasChild l i child f × IsChild child f)
      ⊎ ((length l.fields ≤ i) × (child.free ≡ 0))

abbrev pub IsLower : Lower → Type 0
IsLower l = (i : ℕ) → i < entry_count l → Sound l i

-- The free frames that the counters count.
abbrev pub free_frames : Lower → ℕ
free_frames l = total (λ c. c.free) l.children

Sound-with_child :
    (l : Lower) (i j : ℕ) (d : Child) (g : Bitfield)
    → i ≢ j
    → Sound l j
    → Sound (with_child l i d g) j
unfolding get_child child_count
Sound-with_child l i j d g ne s =
    let at : get_child (with_child l i d g) j ≡ some s.child = get_child-put_ne l i j d ne ∙ s.at in
    record {
      child = s.child;
      at = at;
      kept = elim (s.kept) [
        | inl (f, has, agree) ↦
            inl (
              f,
              record { child = at; bits = get_elem?-set_ne l.fields i j g ne ∙ has.bits },
              agree,
            )
        | inr (behind, none_left) ↦ inr (omega (arith, length-set l.fields i g), none_left)
      ];
    }

-- A child that is replaced by another sound one.
pub IsLower-with_child :
    (l : Lower) (i : ℕ) (c d : Child) (f g : Bitfield)
    → IsLower l
    → HasChild l i c f
    → IsChild d g
    → IsLower (with_child l i d g)
IsLower-with_child l i c d f g sound has agree j inside = elim (Bool-cases (i == j)) [
  | inl same ↦
      let here : i ≡ j = ground arith in
      let held = HasChild-with_child l i c d f g has in
      subst (Sound (with_child l i d g)) here
        (record { child = d; at = held.child; kept = inl (g, held, agree) })
  | inr other ↦ Sound-with_child l i j d g (ground arith) (sound j inside)
]

pub free_frames-with_child :
    (l : Lower) (i : ℕ) (c d : Child) (f g : Bitfield)
    → HasChild l i c f
    → free_frames (with_child l i d g) + c.free ≡ free_frames l + d.free
free_frames-with_child l i c d f g has =
    total-set (λ (c : Child). c.free) l.children i c d (get_child-eq-some l i c has.child)

pub IsLower-Given :
    (l l' : Lower) (i order pos : ℕ) → IsLower l → Given l l' i order pos → IsLower l'
IsLower-Given l l' i order pos sound g =
    rw (g.after) (IsLower-with_child l i g.old g.new g.bits g.bits' sound g.before g.agree)

pub free_frames-Given :
    (l l' : Lower) (i order pos : ℕ)
    → Given l l' i order pos
    → free_frames l' + 2 ^ order ≡ free_frames l
free_frames-Given l l' i order pos g =
    let counted = free_frames-with_child l i g.old g.new g.bits g.bits' g.before in
    rw (g.after) (omega (arith, counted, g.counter))
