-- ===== src/Tests/Children.antt =====
-- src/child.c and src/lower.c at concrete inputs.
use llfree_c.Base.{
  ℕ, zero, suc, ◌+◌, ◌≡◌, ◌≤◌, inl, inr, refl, arith, false, some, none, [], ◌∷◌, replicate,
  total-replicate, set,
}
use llfree_c.Types.{Outcome, llfree_ok, llfree_err, ok}
use llfree_c.Utils.{
  ctz, trailing_zeros, popcount, count_ones, offsetted, offsetted_from, align_up, align_down,
}
use llfree_c.Child.{Child, child_dec}
use llfree_c.Bitfield.{Bitfield, first_zeros_aligned, field_set_next, set_next_in_rows}
use llfree_c.Lower.State.{Lower, get_child, child_count}
use llfree_c.Lower.Get.{get_in_child, get_small, lower_get_any, lower_get}
use llfree_c.Lower.Put.{lower_put}
use llfree_c.Lower.Update.{try_update_huge_n, update_child}
use llfree_c.Lower.Single.{IsChild, HasChild}
use llfree_c.Lower.Invariant.{IsLower, Sound}
use llfree_c.Lower.GetSmall.{Allocated, lower_get_lem}
use llfree_c.Lower.RoundTrip.{lower_put-lower_get}
use llfree_c.Lower.Undo.{
  all_free, allocated, try_update_huge_n-frees_neighbour, try_update_huge_n-undo_fails,
}
use llfree_c.Tests.Bits.{empty_field, empty_field-IsField}

abbrev some_used : Child
some_used = record { free = 500; huge = false }

abbrev fewer : Child
fewer = record { free = 492; huge = false }

fewer-taken : child_dec some_used 3 ≡ some fewer
unfolding child_dec
fewer-taken = refl

-- One child; the other entries of its tree have no frames.
abbrev no_frames : Child
no_frames = record { free = 0; huge = false }

abbrev pub solo : Child → Bitfield → Lower
solo c f = record { frames = 512; fields = f ∷ []; children = c ∷ replicate 7 no_frames }

solo-HasChild : (c : Child) (f : Bitfield) → HasChild (solo c f) 0 c f
unfolding get_child child_count align_up align_down trailing_zeros ctz
solo-HasChild c f = record { child = refl; bits = refl }

no_frames-Sound :
    (c : Child) (f : Bitfield) (i : ℕ)
    → 1 ≤ i
    → get_child (solo c f) i ≡ some no_frames
    → Sound (solo c f) i
no_frames-Sound c f i behind at = record { child = no_frames; at = at; kept = inr (behind, refl) }

pub solo-IsLower : (c : Child) (f : Bitfield) → IsChild c f → IsLower (solo c f)
unfolding get_child child_count align_up align_down trailing_zeros ctz
solo-IsLower c f agree zero h = record {
  child = c;
  at = refl;
  kept = inl (f, solo-HasChild c f, agree);
}
solo-IsLower c f agree (suc zero) h = no_frames-Sound c f 1 (omega arith) refl
solo-IsLower c f agree (suc (suc zero)) h = no_frames-Sound c f 2 (omega arith) refl
solo-IsLower c f agree (suc (suc (suc zero))) h = no_frames-Sound c f 3 (omega arith) refl
solo-IsLower c f agree (suc (suc (suc (suc zero)))) h = no_frames-Sound c f 4 (omega arith) refl
solo-IsLower c f agree (suc (suc (suc (suc (suc zero))))) h =
    no_frames-Sound c f 5 (omega arith) refl
solo-IsLower c f agree (suc (suc (suc (suc (suc (suc zero)))))) h =
    no_frames-Sound c f 6 (omega arith) refl
solo-IsLower c f agree (suc (suc (suc (suc (suc (suc (suc zero))))))) h =
    no_frames-Sound c f 7 (omega arith) refl
solo-IsLower c f agree i h = absurd (omega arith)

-- All of its frames are free.
abbrev pub one_child : Lower
one_child = solo all_free empty_field

pub all_free-IsChild : IsChild all_free empty_field
unfolding count_ones popcount
all_free-IsChild = record {
  field = empty_field-IsField;
  counted = λ e. omega (arith, total-replicate count_ones 8 0);
  whole = λ e. ground (arith, e);
}

one_child-HasChild : HasChild one_child 0 all_free empty_field
one_child-HasChild = solo-HasChild all_free empty_field

pub one_child-IsLower : IsLower one_child
one_child-IsLower = solo-IsLower all_free empty_field all_free-IsChild

lower_get_lem_example :
    (r : Lower × Outcome) × (lower_get one_child 100 2 none ≡ some r) × Allocated one_child 100 2 r
lower_get_lem_example = lower_get_lem one_child 100 2 one_child-IsLower (omega arith) (omega arith)

-- The child after four frames of its second row were given away.
abbrev one_given : Lower
one_given = record {
  frames = 512;
  fields = set empty_field 1 0xf ∷ [];
  children = record { free = 508; huge = false } ∷ replicate 7 no_frames;
}

one_given-run : lower_get one_child 100 2 none ≡ some (one_given, llfree_ok 64 0)
unfolding lower_get lower_get_any get_small get_in_child update_child child_dec get_child
    child_count align_up align_down trailing_zeros ctz offsetted offsetted_from field_set_next
    set_next_in_rows first_zeros_aligned
one_given-run = refl

lower_put-lower_get_example : lower_put one_given 64 2 ≡ some (one_child, llfree_err ok)
lower_put-lower_get_example =
    lower_put-lower_get one_child one_given 100 2 64 one_child-IsLower (omega arith) (omega arith)
      refl (omega arith) one_given-run

-- Two children, the second of them allocated as a huge page.
abbrev two_children : Lower
two_children = record {
  frames = 1024;
  fields = empty_field ∷ empty_field ∷ [];
  children = all_free ∷ allocated ∷ replicate 6 no_frames;
}

two_children-first : get_child two_children 0 ≡ some all_free
unfolding get_child child_count align_up align_down trailing_zeros ctz
two_children-first = refl

two_children-second : get_child two_children 1 ≡ some allocated
unfolding get_child child_count align_up align_down trailing_zeros ctz
two_children-second = refl

try_update_huge_n-frees_neighbour_example :
    (l' : Lower) × (try_update_huge_n two_children 0 2 all_free allocated ≡ some (l', false))
    × (get_child l' 0 ≡ some allocated)
    × (get_child l' (0 + 1) ≡ some all_free)
try_update_huge_n-frees_neighbour_example =
    try_update_huge_n-frees_neighbour two_children 0 2 (omega arith) two_children-first
      two_children-second

-- The second child has given 12 frames away.
abbrev part_used : Lower
part_used = record two_children { children = all_free ∷ some_used ∷ replicate 6 no_frames }

part_used-first : get_child part_used 0 ≡ some all_free
unfolding get_child child_count align_up align_down trailing_zeros ctz
part_used-first = refl

part_used-second : get_child part_used 1 ≡ some some_used
unfolding get_child child_count align_up align_down trailing_zeros ctz
part_used-second = refl

try_update_huge_n-undo_fails_example : try_update_huge_n part_used 0 2 all_free allocated ≡ none
try_update_huge_n-undo_fails_example =
    try_update_huge_n-undo_fails part_used 0 2 some_used (omega arith) part_used-first
      part_used-second (ground arith) (ground arith)
