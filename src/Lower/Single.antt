-- ===== src/Lower/Single.antt =====
-- src/lower.c: one child, as its counter and its bits, and the accesses of the two.
use llfree_c.Base.{
  ℕ, ◌+◌, ◌≡◌, ◌≤◌, refl, ◌∙◌, arith, true, false, some, none, Option, get_elem?, set,
  get_elem?-set_self, lt_of_get_elem?, set-set, set_of_get_elem?, Bool-cases, inl, inr,
}
use llfree_c.Child.{Child, child_inc}
use llfree_c.Bitfield.{Bitfield}
use llfree_c.Bitfield.Field.{IsField, ones}
use llfree_c.Lower.State.{Lower, child_count, get_child, put_child, put_field}
use llfree_c.Lower.Undo.{get_child-eq-some, get_child-put_self}
use llfree_c.Lower.Update.{update_child, undo_dec}

-- Counter and bits agree: a child that is not huge counts its clear bits, and a huge one has no free
-- frame and no bit set.
pub record IsChild (c : Child) (f : Bitfield) : Type 0 where
  pub field : IsField f
  pub counted : c.huge ≡ false → c.free + ones f ≡ 512
  pub whole : c.huge ≡ true → (c.free ≡ 0) × (ones f ≡ 0)

-- Child `i` of the allocator has the counter `c` and the bits `f`.
pub record HasChild (l : Lower) (i : ℕ) (c : Child) (f : Bitfield) : Type 0 where
  pub child : get_child l i ≡ some c
  pub bits : get_elem? l.fields i ≡ some f

-- The allocator with child `i` replaced.
abbrev pub with_child : Lower → ℕ → Child → Bitfield → Lower
with_child l i c f = put_field (put_child l i c) i f

pub HasChild-with_child :
    (l : Lower) (i : ℕ) (c d : Child) (f g : Bitfield)
    → HasChild l i c f
    → HasChild (with_child l i d g) i d g
unfolding get_child child_count
HasChild-with_child l i c d f g has = record {
  child = get_child-put_self l i c d has.child;
  bits = get_elem?-set_self l.fields i g (lt_of_get_elem? l.fields i f has.bits);
}

-- Writing back what child `i` was gives the allocator of before.
pub with_child-back :
    (l : Lower) (i : ℕ) (c d : Child) (f g : Bitfield)
    → HasChild l i c f
    → with_child (with_child l i d g) i c f ≡ l
with_child-back l i c d f g has =
    let entries : set (set l.children i d) i c ≡ l.children =
      set-set l.children i d c
      ∙ set_of_get_elem? l.children i c (get_child-eq-some l i c has.child) in
    let fields : set (set l.fields i g) i f ≡ l.fields =
      set-set l.fields i g f ∙ set_of_get_elem? l.fields i f has.bits in
    rw (entries, fields) refl

pub put_child-back :
    (l : Lower) (i : ℕ) (c d : Child) (f : Bitfield)
    → HasChild l i c f
    → put_child (with_child l i d f) i c ≡ l
put_child-back l i c d f has =
    let entries : set (set l.children i d) i c ≡ l.children =
      set-set l.children i d c
      ∙ set_of_get_elem? l.children i c (get_child-eq-some l i c has.child) in
    rw (entries, set_of_get_elem? l.fields i f has.bits) refl

-- The counter of a child is at most 512.
pub few : (c : Child) (f : Bitfield) → IsChild c f → c.free ≤ 512
few c f agree = elim (Bool-cases c.huge) [
  | inl huge ↦ omega (arith, agree.whole huge)
  | inr small ↦ omega (arith, agree.counted small)
]

pub get_child-put_field :
    (l : Lower) (i j : ℕ) (f : Bitfield) → get_child (put_field l i f) j ≡ get_child l j
unfolding get_child child_count
get_child-put_field l i j f = refl

pub put_field-same :
    (l : Lower) (i : ℕ) (f : Bitfield) → get_elem? l.fields i ≡ some f → put_field l i f ≡ l
put_field-same l i f h = rw (set_of_get_elem? l.fields i f h) refl

pub update_child-taken :
    (step : Child → ℕ → Option Child) (l : Lower) (i order : ℕ) (c d : Child)
    → get_child l i ≡ some c
    → step c order ≡ some d
    → update_child step l i order ≡ some (put_child l i d, true)
unfolding update_child
update_child-taken step l i order c d at e = rw (at, e) refl

pub update_child-refused :
    (step : Child → ℕ → Option Child) (l : Lower) (i order : ℕ) (c : Child)
    → get_child l i ≡ some c
    → step c order ≡ none
    → update_child step l i order ≡ some (l, false)
unfolding update_child
update_child-refused step l i order c at e = rw (at, e) refl

pub undo_dec_lem :
    (l : Lower) (i order : ℕ) (c d : Child)
    → get_child l i ≡ some c
    → child_inc c order ≡ some d
    → undo_dec l i order ≡ some (put_child l i d)
unfolding undo_dec
undo_dec_lem l i order c d at e = rw (update_child-taken child_inc l i order c d at e) refl
