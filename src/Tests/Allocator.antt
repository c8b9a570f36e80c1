-- ===== src/Tests/Allocator.antt =====
-- src/llfree.c at concrete inputs.
use mathlib.Core.Path.{subst}
use llfree_c.Base.{
  ℕ, zero, suc, ◌+◌, ◌/◌, ◌%◌, ◌≤◌, ◌<◌, ◌≡◌, refl, arith, false, Option, some, none, List, [], ◌∷◌,
  get_elem?, get_elem?-replicate, replicate, total-cons, total-nil, total-replicate,
}
use llfree_c.Policy.{llfree_simple_policy}
use llfree_c.Child.{Child}
use llfree_c.Bitfield.{Bitfield}
use llfree_c.Tree.{Tree}
use llfree_c.Tree.Laws.{IsTree}
use llfree_c.Local.{Reserved, Locals}
use llfree_c.Lower.Single.{IsChild}
use llfree_c.Lower.State.{get_child}
use llfree_c.Lower.Spec.{is_free, free_in_child}
use llfree_c.Lower.Counts.{tree_free}
use llfree_c.Llfree.{Llfree}
use llfree_c.Llfree.Upper.{
  IsSlot, AllSlots, IsLocal, IsUpper, count_at, held, slot_frames, class_frames, counter,
}
use llfree_c.Tests.Children.{solo, solo-IsLower}

abbrev pub one_slot : Reserved → Locals
one_slot r = record { num_classes = 1; classes = some (r ∷ []) ∷ replicate 7 none }

-- One child, one tree, and one slot of class 0.
abbrev pub one_tree : Child → Bitfield → Tree → Reserved → Llfree
one_tree c f t r = record {
  lower = solo c f;
  local = one_slot r;
  trees = record { entries = t ∷ []; len = 1; default_class = 0 };
  policy = llfree_simple_policy;
  num_classes = 1;
}

abbrev pub one_class : ℕ → Option (Option ℕ)
one_class c =
    count_at (get_elem? (one_slot (record { present = false; free = 0; start_row = 0 })).classes c)

behind-not_free : (m : Option Child) (x : ℕ) → free_in_child m none x ≡ false
behind-not_free none x = refl
behind-not_free (some c) x = refl

solo-ends : (c : Child) (f : Bitfield) (x : ℕ) → 512 ≤ x → is_free (solo c f) x ≡ false
unfolding is_free
solo-ends c f x h =
    let beyond : get_elem? (f ∷ []) (x / 512) ≡ none = past (x / 512) (omega arith) in
    rw beyond (behind-not_free (get_child (solo c f) (x / 512)) (x % 512))
  where
    past : (i : ℕ) → 1 ≤ i → get_elem? (f ∷ []) i ≡ none
    past zero h' = absurd (omega arith)
    past (suc i) h' = refl

one_slot-IsLocal : (r : Reserved) → IsSlot 512 r → IsLocal 512 one_class (one_slot r)
one_slot-IsLocal r good = record { shaped = shaped; eight = eight; good = slots_good }
  where
    shaped : (c : ℕ) → count_at (get_elem? (one_slot r).classes c) ≡ one_class c
    shaped zero = refl
    shaped (suc c) = refl

    none_at :
        (n c : ℕ) → c < n → (k : Option ℕ) × (count_at (get_elem? (replicate n none) c) ≡ some k)
    none_at zero c lt = absurd (omega arith)
    none_at (suc n) zero lt = (none, refl)
    none_at (suc n) (suc c) lt = none_at n c (omega arith)

    eight : (c : ℕ) → c < 8 → (k : Option ℕ) × (one_class c ≡ some k)
    eight zero lt = (some 1, refl)
    eight (suc c) lt = none_at 7 c (omega arith)

    one : (x : ℕ) (q : Reserved) → get_elem? (r ∷ []) x ≡ some q → IsSlot 512 q
    one zero q e = let same : r ≡ q = ground (arith, e) in subst (IsSlot 512) same good
    one (suc x) q e = ground (arith, e)

    none_good : (slots : Option (List Reserved)) → slots ≡ none → AllSlots 512 slots
    none_good none e = record {}
    none_good (some slots) e = ground (arith, e)

    slots_good :
        (c : ℕ) (slots : Option (List Reserved))
        → get_elem? (one_slot r).classes c ≡ some slots
        → AllSlots 512 slots
    slots_good zero slots e =
        let same : some (r ∷ []) ≡ slots = ground (arith, e) in subst (AllSlots 512) same one
    slots_good (suc c) slots e = none_good slots (get_elem?-replicate 7 c none slots e)

pub one_tree-IsUpper :
    (c : Child) (f : Bitfield) (t : Tree) (r : Reserved)
    → IsChild c f
    → IsTree t
    → IsSlot 512 r
    → t.free + r.free ≤ c.free
    → IsUpper 512 one_class [] (one_tree c f t r)
unfolding tree_free
one_tree-IsUpper c f t r agree valid good enough = record {
  ready = record { size = refl; sound = solo-IsLower c f agree; bits = refl; ends = solo-ends c f };
  array = record { len = refl; entries_len = refl; entries = entries; default_lt = omega arith };
  slots = one_slot-IsLocal r good;
  covered = covered;
}
  where
    entries : (i : ℕ) (q : Tree) → get_elem? (t ∷ []) i ≡ some q → IsTree q
    entries zero q e = let same : t ≡ q = ground (arith, e) in subst IsTree same valid
    entries (suc i) q e = ground (arith, e)

    covered :
        (i : ℕ)
        → i < 1
        → counter (one_tree c f t r).trees i + held (one_slot r) i + 0 ≤ tree_free (solo c f) i
    covered zero lt =
        let one_class_only = total-cons (class_frames 0) (some (r ∷ [])) (replicate 7 none) in
        let others = total-replicate (class_frames 0) 7 none in
        let slot = total-cons (slot_frames 0) r [] in
        let end = total-nil (slot_frames 0) in
        let share : slot_frames 0 r ≤ r.free = ground arith in
        omega (arith, enough, one_class_only, others, slot, end, share)
    covered (suc i) lt = absurd (omega arith)
