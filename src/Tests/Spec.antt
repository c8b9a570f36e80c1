-- ===== src/Tests/Spec.antt =====
-- src/lower.c against the set of free frames, at concrete inputs.
use mathlib.Core.Path.{subst}
use llfree_c.Base.{
  zero, suc, ap, ◌≤◌, get_elem?, get_elem?-replicate, ℕ, ◌+◌, ◌/◌, ◌^◌, ◌≡◌, ◌==◌, refl, arith,
  false, true, some, none, List, ltb, if◌then◌else◌, replicate, length, total-replicate,
}
use llfree_c.Types.{Outcome, llfree_err, ok}
use llfree_c.Utils.{count_ones, popcount}
use llfree_c.Child.{Child}
use llfree_c.Bitfield.{Bitfield, field_is_free}
use llfree_c.Bitfield.Frames.{frame_bit, field_is_free-eq_bit}
use llfree_c.Lower.State.{Lower}
use llfree_c.Lower.Get.{lower_get}
use llfree_c.Lower.Put.{lower_put}
use llfree_c.Lower.Init.{lower_init, init_free, init_alloc, init_recover}
use llfree_c.Lower.Init.Start.{lower_init_lem}
use llfree_c.Lower.Init.Heal.{AreFields}
use llfree_c.Lower.Init.Recovery.{lower_init-init_recover}
use llfree_c.Bitfield.Field.{IsField}
use llfree_c.Lower.Single.{IsChild}
use llfree_c.Lower.Undo.{allocated}
use llfree_c.Lower.Invariant.{IsLower, free_frames}
use llfree_c.Lower.Stats.{Stats, flag, lower_stats, lower_stats_at}
use llfree_c.Lower.Stats.Frame.{lower_stats_at-eq_free}
use llfree_c.Lower.Stats.Total.{lower_stats_lem}
use llfree_c.Base.{total}
use llfree_c.Lower.Spec.{is_free, Allocation}
use llfree_c.Lower.Refine.{lower_get-Allocation}
use llfree_c.Lower.Release.{Release, lower_put-Release}
use llfree_c.Tests.Bits.{empty_field, empty_field-IsField}
use llfree_c.Tests.Children.{solo, solo-IsLower, one_child, one_child-IsLower}

field_is_free-eq_bit_example : field_is_free empty_field 70 ≡ some (frame_bit empty_field 70 == 0)
field_is_free-eq_bit_example = field_is_free-eq_bit empty_field 70 empty_field-IsField (omega arith)

lower_get-Allocation_example :
    (r : Lower × Outcome) × (lower_get one_child 100 2 none ≡ some r)
    × Allocation (100 / 4096) (2 ^ 2) one_child r
lower_get-Allocation_example =
    lower_get-Allocation one_child 100 2 one_child-IsLower (omega arith) (omega arith) (omega arith)

-- A child that is allocated as a huge page, of which four frames are freed.
abbrev huge_child : Lower
huge_child = solo allocated empty_field

pub allocated-IsChild : IsChild allocated empty_field
unfolding count_ones popcount
allocated-IsChild = record {
  field = empty_field-IsField;
  counted = λ e. ground (arith, e);
  whole = λ e. (refl, omega (arith, total-replicate count_ones 8 0));
}

lower_put-Release_example :
    (r : Lower × Outcome) × (lower_put huge_child 64 2 ≡ some r) × Release huge_child 64 (2 ^ 2) r
lower_put-Release_example =
    lower_put-Release huge_child 64 2 (solo-IsLower allocated empty_field allocated-IsChild)
      (omega arith) (omega arith) (omega arith) (omega arith) (omega arith)

-- 700 frames on arrays that hold other values before.
abbrev old_fields : List Bitfield
old_fields = replicate 2 (replicate 8 5)

abbrev old_children : List Child
old_children = replicate 8 allocated

lower_init_lem_example :
    (l : Lower) × (lower_init old_fields old_children 700 (if true then init_free else init_alloc)
      ≡ some (l, llfree_err ok))
    × (l.frames ≡ 700)
    × IsLower l
    × (length l.fields ≡ (700 + 511) / 512)
    × ((x : ℕ) → is_free l x ≡ (if true then ltb x 700 else false))
lower_init_lem_example =
    lower_init_lem old_fields old_children 700 true (omega arith) (omega arith) (omega arith)

-- A child whose counter is wrong.
abbrev crashed : Lower
crashed = solo (record { free = 3; huge = false }) empty_field

crashed-fields : AreFields crashed.fields
crashed-fields zero f at = subst IsField (ground (arith, at)) empty_field-IsField
crashed-fields (suc i) f at = ground (arith, at)

crashed-rest :
    (j : ℕ) (c : Child)
    → length crashed.fields ≤ j
    → get_elem? crashed.children j ≡ some c
    → c.free ≡ 0
crashed-rest zero c h at = absurd (omega arith)
crashed-rest (suc j) c h at =
    ap (λ (d : Child). d.free) (get_elem?-replicate 7 j (record { free = 0; huge = false }) c at)

lower_init-init_recover_example :
    (l' : Lower) × (lower_init crashed.fields crashed.children crashed.frames init_recover
      ≡ some (l', llfree_err ok))
    × IsLower l'
    × ((x : ℕ) → is_free l' x ≡ is_free crashed x)
lower_init-init_recover_example =
    lower_init-init_recover crashed
      (record { fields_len = refl; children_len = refl; small = omega arith }) crashed-fields
      crashed-rest

lower_stats_at-eq_free_example :
    lower_stats_at one_child 70 0
    ≡ some (record { free_frames = flag (is_free one_child 70); free_huge = 0; free_trees = 0 })
lower_stats_at-eq_free_example =
    lower_stats_at-eq_free one_child 70 one_child-IsLower (omega arith) (omega arith)

lower_stats_lem_example :
    (r : Stats) × (lower_stats one_child ≡ some r)
    × (r.free_frames ≡ free_frames one_child)
    × (r.free_huge ≡ total (λ c. flag (c.free == 512)) one_child.children)
lower_stats_lem_example = lower_stats_lem one_child refl
