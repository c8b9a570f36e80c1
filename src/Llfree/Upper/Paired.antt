-- ===== src/Llfree/Upper/Paired.antt =====
-- Which reservations of src/llfree.c a drain has to give back.
use llfree_c.Base.{
  ℕ, ◌+◌, ◌≤◌, ◌<◌, ◌≡◌, ◌⊎◌, inl, inr, refl, ap, ◌∙◌, arith, true, false, ◌==◌, ◌&&◌,
  if◌then◌else◌, Bool-cases, Option, some, none, List, get_elem?, set, total,
}
use llfree_c.Utils.{tree_from_row}
use llfree_c.Tree.{Tree}
use llfree_c.Trees.{put_entry}
use llfree_c.Local.{Reserved, Locals, put_slot}
use llfree_c.Local.Laws.{HasSlot, put_slot_lem}
use llfree_c.Llfree.{Llfree}
use llfree_c.Llfree.Upper.{counter_of, counter, held}
use llfree_c.Llfree.Upper.Steps.{sum-put_slot, held-put_slot, get_elem?-set_if}

-- The slots that reserve tree `i`.
abbrev pub slot_claims : ℕ → Reserved → ℕ
slot_claims i r = if r.present && (i == tree_from_row r.start_row) then 1 else 0

abbrev pub class_claims : ℕ → Option (List Reserved) → ℕ
class_claims i none = 0
class_claims i (some slots) = total (slot_claims i) slots

abbrev pub claims : Locals → ℕ → ℕ
claims l i = total (class_claims i) l.classes

abbrev pub reserved_of : Option Tree → ℕ
reserved_of none = 0
reserved_of (some t) = if t.reserved then 1 else 0

-- A tree is marked as reserved exactly when a slot reserves it, and then one slot does.
abbrev pub IsPaired : Llfree → Type 0
IsPaired s = (i : ℕ) → claims s.local i ≡ reserved_of (get_elem? s.trees.entries i)

-- Every tree keeps its frames, on its counter and on slots.
abbrev pub SameFrames : Llfree → Llfree → Type 0
SameFrames s s' =
    (i : ℕ) → counter s'.trees i + held s'.local i ≡ counter s.trees i + held s.local i

-- What a slot reserved goes back to its tree.
pub give_up :
    (s : Llfree) (c x k : ℕ) (t t' : Tree) (r q : Reserved)
    → HasSlot s.local c x r
    → r.present ≡ true
    → tree_from_row r.start_row ≡ k
    → q.present ≡ false
    → get_elem? s.trees.entries k ≡ some t
    → t'.free ≡ t.free + r.free
    → t'.reserved ≡ false
    → IsPaired s
    → IsPaired (record s { local = put_slot s.local c x q; trees = put_entry s.trees k t' })
      × SameFrames s (record s { local = put_slot s.local c x q; trees = put_entry s.trees k t' })
give_up s c x k t t' r q has present tree empty at free open_tree paired = (
  λ i.
      let sum = sum-put_slot (slot_claims i) (class_claims i) s.local c x r q (λ slots. refl) has in
      let now = ap reserved_of (get_elem?-set_if s.trees.entries k i t t' at) in
      let before = paired i in
      elim (Bool-cases (i == k)) [
        | inl same ↦
            let place : i ≡ k = ground arith in
            let old =
              ap (λ (j : ℕ). reserved_of (get_elem? s.trees.entries j)) place ∙ ap reserved_of at in
            let new : reserved_of (get_elem? (set s.trees.entries k t') i) ≡ 0 =
              ground (arith, now, same, open_tree) in
            let bound : reserved_of (some t) ≤ 1 = ground arith in
            ground (arith, sum, new, before, old, bound, present, tree, empty, same)
        | inr other ↦
            let new : reserved_of (get_elem? (set s.trees.entries k t') i)
                ≡ reserved_of (get_elem? s.trees.entries i) =
              ground (arith, now, other) in
            ground (arith, sum, new, before, tree, empty, other)
      ],
  λ i.
      let sum = held-put_slot s.local c x i r q has in
      let now = ap counter_of (get_elem?-set_if s.trees.entries k i t t' at) in
      elim (Bool-cases (i == k)) [
        | inl same ↦
            let place : i ≡ k = ground arith in
            let old =
              ap (λ (j : ℕ). counter_of (get_elem? s.trees.entries j)) place ∙ ap counter_of at in
            let new : counter_of (get_elem? (set s.trees.entries k t') i) ≡ t'.free =
              ground (arith, now, same) in
            ground (arith, sum, new, old, free, present, tree, empty, same)
        | inr other ↦
            let new : counter_of (get_elem? (set s.trees.entries k t') i)
                ≡ counter_of (get_elem? s.trees.entries i) =
              ground (arith, now, other) in
            ground (arith, sum, new, tree, empty, other)
      ],
)

-- An empty slot that is written as an empty one.
pub stay_empty :
    (s : Llfree) (c x : ℕ) (r q : Reserved)
    → HasSlot s.local c x r
    → r.present ≡ false
    → q.present ≡ false
    → IsPaired s
    → IsPaired (record s { local = put_slot s.local c x q })
      × SameFrames s (record s { local = put_slot s.local c x q })
stay_empty s c x r q has absent empty paired = (
  λ i.
      let sum = sum-put_slot (slot_claims i) (class_claims i) s.local c x r q (λ slots. refl) has in
      let before = paired i in ground (arith, sum, before, absent, empty),
  λ i. let sum = held-put_slot s.local c x i r q has in ground (arith, sum, absent, empty),
)

-- The tree of a slot is marked as reserved.
pub reserved_at :
    (s : Llfree) (c x k : ℕ) (t : Tree) (r q : Reserved)
    → HasSlot s.local c x r
    → r.present ≡ true
    → tree_from_row r.start_row ≡ k
    → q.present ≡ false
    → get_elem? s.trees.entries k ≡ some t
    → IsPaired s
    → t.reserved ≡ true
reserved_at s c x k t r q has present tree empty at paired =
    let sum = sum-put_slot (slot_claims k) (class_claims k) s.local c x r q (λ slots. refl) has in
    let before = paired k ∙ ap reserved_of at in ground (arith, sum, before, present, tree, empty)

-- The slots of the classes below `c` are empty, and those of class `c` below `i`.
abbrev pub EmptyBefore : Locals → ℕ → ℕ → Type 0
EmptyBefore l c i =
    (k : ℕ) (slots : List Reserved)
    → get_elem? l.classes k ≡ some (some slots)
    → (x : ℕ) (r : Reserved) → get_elem? slots x ≡ some r
    → (k < c) ⊎ ((k ≡ c) × (x < i))
    → r.present ≡ false

pub put_slot-EmptyBefore :
    (l : Locals) (c i : ℕ) (old q : Reserved)
    → HasSlot l c i old
    → q.present ≡ false
    → EmptyBefore l c i
    → EmptyBefore (put_slot l c i q) c (i + 1)
put_slot-EmptyBefore l c i old q has empty before k slots at x r here behind =
    let written = ap (λ (m : Locals). get_elem? m.classes k) (put_slot_lem l c i old q has) in
    let class_at =
      get_elem?-set_if l.classes c k (some has.slots) (some (set has.slots i q)) has.at_class in
    let slot_at = get_elem?-set_if has.slots i x old q has.at_slot in
    elim (Bool-cases (k == c)) [
      | inl same ↦
          let new : some (some (set has.slots i q)) ≡ some (some slots) =
            ground (arith, written, class_at, at, same) in
          let inside : set has.slots i q ≡ slots = ground (arith, new) in
          let there : get_elem? (set has.slots i q) x ≡ some r =
            ap (λ (ys : List Reserved). get_elem? ys x) inside ∙ here in
          elim (Bool-cases (x == i)) [
            | inl now ↦ let value : q ≡ r = ground (arith, slot_at, there, now) in cc (value, empty)
            | inr other ↦
                let kept : get_elem? has.slots x ≡ some r = ground (arith, slot_at, there, other) in
                let class : get_elem? l.classes k ≡ some (some has.slots) =
                  ap (get_elem? l.classes) (ground (arith, same)) ∙ has.at_class in
                before k has.slots class x r kept (ground (arith, behind, other, same))
          ]
      | inr other ↦
          let kept : get_elem? l.classes k ≡ some (some slots) =
            ground (arith, written, class_at, at, other) in
          before k slots kept x r here (ground (arith, behind, other))
    ]
