-- ===== src/Tests/Requests.antt =====
-- Requests to src/llfree.c at concrete inputs.
use llfree_c.Base.{
  zero, suc, ap, get_elem?, total-cons, total-nil, total-replicate, ℕ, ◌+◌, ◌^◌, ◌≤◌, ◌<◌, ◌≡◌,
  refl, arith, true, false, ltb, Option, some, none, List, [], ◌∷◌, replicate,
}
use llfree_c.Types.{Outcome, llfree_ok, Request}
use llfree_c.Utils.{align_up, align_down, trailing_zeros, ctz, next_pow2}
use llfree_c.Utils.Powers.{next_pow2-least}
use llfree_c.Tree.{Tree}
use llfree_c.Local.{Reserved, ll_local_size, get_slot}
use llfree_c.Policy.{llfree_classing_simple}
use llfree_c.Trees.{trees_metadata_size}
use llfree_c.Lower.State.{Lower}
use llfree_c.Lower.State.{lower_metadata_size}
use llfree_c.Lower.Get.{lower_get}
use llfree_c.Lower.Spec.{is_free}
use llfree_c.Lower.Undo.{all_free, allocated}
use llfree_c.Lower.Ready.{IsReady, Gets}
use llfree_c.Lower.Ready.GetsAt.{lower_get-Gets_at}
use llfree_c.Llfree.{Llfree}
use llfree_c.Llfree.Get.{llfree_get}
use llfree_c.Llfree.Manage.{llfree_init, llfree_put, llfree_drain}
use llfree_c.Llfree.Meta.{Meta, llfree_metadata_size, check_meta}
use llfree_c.Llfree.Upper.{IsUpper, count_at, counter, held}
use llfree_c.Llfree.Upper.Gets.{GetEnds, llfree_get-GetEnds}
use llfree_c.Llfree.Upper.Puts.{PutEnds, llfree_put-PutEnds}
use llfree_c.Llfree.Upper.Paired.{IsPaired, class_claims, slot_claims, reserved_of}
use llfree_c.Llfree.Upper.Drained.{llfree_drain_lem}
use llfree_c.Llfree.Upper.History.{Call, get, put, drain, calls, AllSmall, Run, calls-Run}
use llfree_c.Llfree.Upper.Balance.{one_if, given, taken_back}
use llfree_c.Llfree.Upper.Init.{IsSetup, llfree_init_lem}
use llfree_c.Llfree.Upper.Safety.{llfree_init-calls}
use llfree_c.Tests.Bits.{empty_field}
use llfree_c.Tests.Children.{one_child, all_free-IsChild}
use llfree_c.Tests.Spec.{allocated-IsChild}
use llfree_c.Tests.Allocator.{one_tree, one_class, one_tree-IsUpper}

abbrev busy_slot : Reserved
busy_slot = record { present = true; free = 100; start_row = 0 }

-- 100 of the frames of the tree are on the slot.
abbrev busy : Llfree
busy = one_tree all_free empty_field (record { reserved = true; class = 0; free = 412 }) busy_slot

busy-IsUpper : IsUpper 512 one_class [] busy
busy-IsUpper =
    one_tree-IsUpper all_free empty_field _ _ all_free-IsChild
      (record { bounded = omega arith; classed = omega arith })
      (record { bounded = omega arith; inside = λ e. omega arith }) (omega arith)

-- All frames are allocated as a huge page.
abbrev full : Llfree
full =
    one_tree allocated empty_field (record { reserved = false; class = 1; free = 0 })
      (record { present = false; free = 0; start_row = 0 })

full-IsUpper : IsUpper 512 one_class [] full
full-IsUpper =
    one_tree-IsUpper allocated empty_field _ _ allocated-IsChild
      (record { bounded = omega arith; classed = omega arith })
      (record { bounded = omega arith; inside = λ e. omega arith }) (omega arith)

abbrev four_frames : Request
four_frames = record { order = 2; class = 0; local = some 0 }

llfree_get-GetEnds_example :
    (r : Llfree × Outcome) × (llfree_get busy none four_frames ≡ some r)
    × IsUpper 512 one_class [] r.0
    × GetEnds 512 one_class busy none four_frames r
llfree_get-GetEnds_example =
    llfree_get-GetEnds 512 one_class busy none four_frames (omega arith) busy-IsUpper (omega arith)

llfree_put-PutEnds_example :
    (r : Llfree × Outcome) × (llfree_put full 8 four_frames ≡ some r)
    × PutEnds 512 one_class full 8 four_frames r
llfree_put-PutEnds_example =
    llfree_put-PutEnds 512 one_class full 8 four_frames (omega arith) full-IsUpper (omega arith)

one_class-none : (c : ℕ) → 8 ≤ c → one_class c ≡ none
one_class-none zero h = absurd (omega arith)
one_class-none (suc c) h = ap count_at (behind 7 c (omega arith))
  where
    behind : (n c : ℕ) → n ≤ c → get_elem? {A = Option (List Reserved)} (replicate n none) c ≡ none
    behind zero c le = refl
    behind (suc n) zero le = absurd (omega arith)
    behind (suc n) (suc c) le = behind n c (omega arith)

busy-IsPaired : IsPaired busy
busy-IsPaired i =
    let slots = total-cons (class_claims i) (some (busy_slot ∷ [])) (replicate 7 none) in
    let others = total-replicate (class_claims i) 7 none in
    let slot = total-cons (slot_claims i) busy_slot [] in
    let end = total-nil (slot_claims i) in omega (arith, slots, others, slot, end, by_tree i)
  where
    by_tree : (i : ℕ) → slot_claims i busy_slot ≡ reserved_of (get_elem? busy.trees.entries i)
    by_tree zero = refl
    by_tree (suc i) = ground arith

llfree_drain_lem_example :
    (s' : Llfree) × (llfree_drain busy ≡ some s')
    × IsUpper 512 one_class [] s'
    × (s'.lower ≡ busy.lower)
    × ((c x : ℕ) (r : Reserved) → get_slot s'.local c x ≡ some r → r.present ≡ false)
    × ((i : ℕ) (t : Tree) → get_elem? s'.trees.entries i ≡ some t → t.reserved ≡ false)
    × ((i : ℕ) → counter s'.trees i ≡ counter busy.trees i + held busy.local i)
llfree_drain_lem_example =
    llfree_drain_lem 512 one_class busy one_class-none busy-IsUpper busy-IsPaired

abbrev some_calls : List Call
some_calls = get none four_frames ∷ get (some 64) four_frames ∷ put 64 four_frames ∷ drain ∷ []

some_calls-AllSmall : AllSmall some_calls
some_calls-AllSmall = (omega arith, (omega arith, (omega arith, (record {}, record {}))))

calls-Run_example :
    (s' : Llfree) × (all : List Outcome) × (calls some_calls busy ≡ some (s', all))
    × IsUpper 512 one_class [] s'
    × Run some_calls all (is_free busy.lower) (is_free s'.lower)
calls-Run_example =
    calls-Run 512 one_class (omega arith) some_calls busy some_calls-AllSmall busy-IsUpper

abbrev buffers : Meta
buffers = record { local = 4096; trees = 8192; lower = 64 }

abbrev tree_before : Tree
tree_before = record { reserved = true; class = 7; free = 99 }

setup :
    IsSetup 512 buffers
      (empty_field ∷ [])
      (replicate 8 allocated)
      (tree_before ∷ [])
      (llfree_classing_simple 1)
unfolding llfree_classing_simple llfree_metadata_size trees_metadata_size lower_metadata_size
    check_meta ll_local_size align_up align_down trailing_zeros ctz
setup = record {
  at_least = omega arith;
  few = omega arith;
  some_class = omega arith;
  few_classes = omega arith;
  classes = (omega arith, (omega arith, record {}));
  default_lt = omega arith;
  sizes = record { llfree = 128; local = 384; trees = 64; lower = 128 };
  asked = refl;
  placed = refl;
  fields_len = refl;
  children_len = refl;
  trees_len = refl;
}

llfree_init_lem_example :
    (s : Llfree) × (shape : ℕ → Option (Option ℕ)) × (llfree_init 512 0 buffers
        (empty_field ∷ [])
        (replicate 8 allocated)
        (tree_before ∷ [])
        (llfree_classing_simple 1)
      ≡ some (some s, llfree_ok 0 0))
    × IsUpper 512 shape [] s
    × ((x : ℕ) → is_free s.lower x ≡ ltb x 512)
llfree_init_lem_example =
    llfree_init_lem 512 true buffers (empty_field ∷ []) (replicate 8 allocated) (tree_before ∷ [])
      (llfree_classing_simple 1) setup

llfree_init-calls_example :
    (s : Llfree) × (s' : Llfree) × (all : List Outcome) × (llfree_init 512 0 buffers
        (empty_field ∷ [])
        (replicate 8 allocated)
        (tree_before ∷ [])
        (llfree_classing_simple 1)
      ≡ some (some s, llfree_ok 0 0))
    × (calls some_calls s ≡ some (s', all))
    × ((x : ℕ)
        → given x some_calls all + one_if (is_free s'.lower x)
          ≡ taken_back x some_calls all + one_if (ltb x 512))
llfree_init-calls_example =
    llfree_init-calls 512 true buffers (empty_field ∷ []) (replicate 8 allocated) (tree_before ∷ [])
      (llfree_classing_simple 1) some_calls setup some_calls-AllSmall

one_child-IsReady : IsReady 512 one_child
one_child-IsReady = busy-IsUpper.ready

lower_get-Gets_at_example :
    (r : Lower × Outcome) × (lower_get one_child 0 2 (some 64) ≡ some r)
    × Gets 512 (some 64) 0 4 one_child r
lower_get-Gets_at_example =
    lower_get-Gets_at 512 one_child 0 64 2 (omega arith) one_child-IsReady (omega arith)
      (omega arith) refl

next_pow2-least_example :
    (k : ℕ) × (next_pow2 100 ≡ some (2 ^ k))
    × (k < 64)
    × (100 ≤ 2 ^ k)
    × ((j : ℕ) → 100 ≤ 2 ^ j → k ≤ j)
next_pow2-least_example = next_pow2-least 100 (omega arith)
