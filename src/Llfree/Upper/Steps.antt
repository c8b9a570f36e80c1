-- ===== src/Llfree/Upper/Steps.antt =====
-- One write to a slot, to an entry of the tree array or to the lower allocator, and the invariant of
-- src/llfree.c.
use mathlib.Core.Path.{subst}
use llfree_c.Base.{
  refl, ℕ, ◌+◌, ◌≤◌, ◌≡◌, sym, ap, ◌∙◌, arith, ◌==◌, if◌then◌else◌, Bool-cases, inl, inr, Option,
  some, List, ◌∷◌, get_elem?, set, length-set, total, total-set, get_elem?-set_self,
  get_elem?-set_ne, lt_of_get_elem?,
}
use llfree_c.Tree.{Tree}
use llfree_c.Tree.Laws.{IsTree}
use llfree_c.Trees.{put_entry}
use llfree_c.Local.{Reserved, Locals, put_slot}
use llfree_c.Local.Laws.{HasSlot, put_slot_lem}
use llfree_c.Lower.State.{Lower}
use llfree_c.Lower.Ready.{Taken}
use llfree_c.Llfree.{Llfree}
use llfree_c.Llfree.Upper.{
  counter_of, slot_frames, class_frames, held, in_hand, IsSlot, AllSlots, count_at, IsLocal,
  IsUpper,
}

-- What a write leaves to be read at any index.
pub get_elem?-set {ℓ} :
    {A : Type ℓ} (P : A → Type 0) (xs : List A) (i j : ℕ) (x y v : A)
    → get_elem? xs i ≡ some x
    → P y
    → (get_elem? xs j ≡ some v → P v)
    → get_elem? (set xs i y) j ≡ some v
    → P v
get_elem?-set P xs i j x y v at new old e = elim (Bool-cases (i == j)) [
  | inl same ↦
      let here : i ≡ j = ground arith in
      let written = get_elem?-set_self xs i y (lt_of_get_elem? xs i x at) in
      let value : y ≡ v = ground (arith, written, e, here) in subst P value new
  | inr other ↦ old (sym (get_elem?-set_ne xs i j y (ground arith)) ∙ e)
]

-- A sum over all slots, by class.
pub sum-put_slot :
    (w : Reserved → ℕ) (f : Option (List Reserved) → ℕ) (l : Locals) (c x : ℕ) (r q : Reserved)
    → ((slots : List Reserved) → f (some slots) ≡ total w slots)
    → HasSlot l c x r
    → total f (put_slot l c x q).classes + w r ≡ total f l.classes + w q
sum-put_slot w f l c x r q each has =
    let new = set has.slots x q in
    let inner = total-set w has.slots x r q has.at_slot in
    let outer = total-set f l.classes c (some has.slots) (some new) has.at_class in
    let written : total f (put_slot l c x q).classes ≡ total f (set l.classes c (some new)) =
      ap (λ (m : Locals). total f m.classes) (put_slot_lem l c x r q has) in
    omega (arith, inner, outer, written, each has.slots, each new)

pub held-put_slot :
    (l : Locals) (c x i : ℕ) (r q : Reserved)
    → HasSlot l c x r
    → held (put_slot l c x q) i + slot_frames i r ≡ held l i + slot_frames i q
held-put_slot l c x i r q has =
    sum-put_slot (slot_frames i) (class_frames i) l c x r q (λ slots. refl) has

-- What a write leaves at each index.
pub get_elem?-set_if {ℓ} :
    {A : Type ℓ} (xs : List A) (k i : ℕ) (t t' : A)
    → get_elem? xs k ≡ some t
    → get_elem? (set xs k t') i ≡ (if i == k then some t' else get_elem? xs i)
get_elem?-set_if xs k i t t' at = elim (Bool-cases (i == k)) [
  | inl same ↦
      let here : i ≡ k = ground arith in
      rw same
        (ap (get_elem? (set xs k t')) here ∙ get_elem?-set_self xs k t' (lt_of_get_elem? xs k t at))
  | inr other ↦ rw other (get_elem?-set_ne xs k i t' (ground arith))
]

-- The same number of slots.
count_at-put_slot :
    (l : Locals) (c x k : ℕ) (r q : Reserved)
    → HasSlot l c x r
    → count_at (get_elem? (put_slot l c x q).classes k) ≡ count_at (get_elem? l.classes k)
count_at-put_slot l c x k r q has =
    let new = some (set has.slots x q) in
    let written : get_elem? (put_slot l c x q).classes k ≡ get_elem? (set l.classes c new) k =
      ap (λ (m : Locals). get_elem? m.classes k) (put_slot_lem l c x r q has) in
    elim (Bool-cases (c == k)) [
      | inl same ↦
          let here : c ≡ k = ground arith in
          let old : get_elem? l.classes k ≡ some (some has.slots) =
            ap (get_elem? l.classes) (sym here) ∙ has.at_class in
          let now : get_elem? (set l.classes c new) k ≡ some new =
            ap (get_elem? (set l.classes c new)) (sym here)
            ∙ get_elem?-set_self l.classes c new
                (lt_of_get_elem? l.classes c (some has.slots) has.at_class) in
          ap count_at (written ∙ now)
          ∙ ap (λ n. some (some n)) (length-set has.slots x q)
          ∙ sym (ap count_at old)
      | inr other ↦ ap count_at (written ∙ get_elem?-set_ne l.classes c k new (ground arith))
    ]

pub put_slot-IsLocal :
    (frames : ℕ) (shape : ℕ → Option (Option ℕ)) (l : Locals) (c x : ℕ) (r q : Reserved)
    → IsLocal frames shape l
    → HasSlot l c x r
    → IsSlot frames q
    → IsLocal frames shape (put_slot l c x q)
put_slot-IsLocal frames shape l c x r q local has good = record {
  shaped = λ k. count_at-put_slot l c x k r q has ∙ local.shaped k;
  eight = local.eight;
  good = λ k slots at.
      let written = ap (λ (m : Locals). get_elem? m.classes k) (put_slot_lem l c x r q has) in
      get_elem?-set (AllSlots frames) l.classes c k (some has.slots) (some (set has.slots x q))
        slots has.at_class
        (λ y v e.
          get_elem?-set (IsSlot frames) has.slots x y r q v has.at_slot good
            (local.good c (some has.slots) has.at_class y v) e)
        (local.good k slots) (sym written ∙ at);
}

module _ {frames : ℕ} {shape : ℕ → Option (Option ℕ)} {hand hand' : List (ℕ × ℕ)} {s : Llfree} where
  -- A write to a slot.
  pub slot_step :
      {c x : ℕ} {r q : Reserved}
      → IsUpper frames shape hand s
      → HasSlot s.local c x r
      → IsSlot frames q
      → ((i : ℕ) → slot_frames i q + in_hand hand' i ≤ slot_frames i r + in_hand hand i)
      → IsUpper frames shape hand' (record s { local = put_slot s.local c x q })
  slot_step {c} {x} {r} {q} u has good less = record {
    ready = u.ready;
    array = u.array;
    slots = put_slot-IsLocal frames shape s.local c x r q u.slots has good;
    covered = λ i lt. omega (arith, u.covered i lt, less i, held-put_slot s.local c x i r q has);
  }

  -- A write to an entry.
  pub entry_step :
      (k : ℕ) (t t' : Tree)
      → IsUpper frames shape hand s
      → get_elem? s.trees.entries k ≡ some t
      → IsTree t'
      → ((i : ℕ)
          → (if i == k then t'.free else 0) + in_hand hand' i
            ≤ (if i == k then t.free else 0) + in_hand hand i)
      → IsUpper frames shape hand' (record s { trees = put_entry s.trees k t' })
  entry_step k t t' u at good less = record {
    ready = u.ready;
    array = record {
      len = u.array.len;
      entries_len = length-set s.trees.entries k t' ∙ u.array.entries_len;
      entries =
          λ j v e. get_elem?-set IsTree s.trees.entries k j t t' v at good (u.array.entries j v) e;
      default_lt = u.array.default_lt;
    };
    slots = u.slots;
    covered = λ i lt. omega (arith, u.covered i lt, less i, changed i);
  }
    where
      changed :
          (i : ℕ)
          → counter_of (get_elem? (set s.trees.entries k t') i) + (if i == k then t.free else 0)
            ≡ counter_of (get_elem? s.trees.entries i) + (if i == k then t'.free else 0)
      changed i =
          let here = ap counter_of at in
          let now = ap counter_of (get_elem?-set_if s.trees.entries k i t t' at) in
          elim (Bool-cases (i == k)) [
            | inl same ↦
                let place : i ≡ k = ground arith in
                let old = ap (λ (j : ℕ). counter_of (get_elem? s.trees.entries j)) place in
                let new : counter_of (get_elem? (set s.trees.entries k t') i) ≡ t'.free =
                  ground (arith, now, same) in
                ground (arith, new, old, here, same)
            | inr other ↦
                let new : counter_of (get_elem? (set s.trees.entries k t') i)
                    ≡ counter_of (get_elem? s.trees.entries i) =
                  ground (arith, now, other) in
                ground (arith, new, other)
          ]

  -- Frames may leave the hand.
  pub hand_step :
      IsUpper frames shape hand s
      → ((i : ℕ) → in_hand hand' i ≤ in_hand hand i)
      → IsUpper frames shape hand' s
  hand_step u less = record {
    ready = u.ready;
    array = u.array;
    slots = u.slots;
    covered = λ i lt. omega (arith, u.covered i lt, less i);
  }

-- The lower allocator gives away what was in the hand.
pub lower_step :
    {frames : ℕ} {shape : ℕ → Option (Option ℕ)} {hand : List (ℕ × ℕ)} {s : Llfree} {l : Lower}
    {k n frame : ℕ}
    → IsUpper frames shape ((k, n) ∷ hand) s
    → Taken frames s.lower l k n frame
    → IsUpper frames shape hand (record s { lower = l })
lower_step {l} {k} {n} u taken = record {
  ready = taken.ready;
  array = u.array;
  slots = u.slots;
  covered = λ i lt. ground (arith, u.covered i lt, taken.counters i);
}
