-- ===== src/Llfree/Upper/Drained.antt =====
-- What `llfree_drain` of src/llfree.c leaves behind.
use llfree_c.Base.{
  total, ℕ, ◌+◌, ◌≤◌, ◌<◌, ◌≡◌, inl, inr, refl, ap, ◌∙◌, arith, Bool-cases, Option, some, none, [],
  List, ltb, false, get_elem?, total-zero, lt_of_ltb-true,
}
use llfree_c.Tree.{Tree}
use llfree_c.Local.{Reserved, Locals, get_slot}
use llfree_c.Local.Laws.{HasSlot_of_get}
use llfree_c.Llfree.{Llfree}
use llfree_c.Llfree.Manage.{llfree_drain}
use llfree_c.Llfree.Upper.{IsUpper, count_at, counter, held, class_frames, slot_frames}
use llfree_c.Llfree.Upper.Paired.{class_claims, slot_claims, reserved_of, IsPaired, EmptyBefore}
use llfree_c.Llfree.Upper.Drain.{llfree_drain-Drains}

-- Empty slots have no frames and reserve no tree.
empty_sum :
    (l : Locals) (w : Reserved → ℕ) (f : Option (List Reserved) → ℕ)
    → f none ≡ 0
    → ((slots : List Reserved) → f (some slots) ≡ total w slots)
    → ((r : Reserved) → r.present ≡ false → w r ≡ 0)
    → ((c : ℕ) → 8 ≤ c → get_elem? l.classes c ≡ none)
    → EmptyBefore l 8 0
    → total f l.classes ≡ 0
empty_sum l w f no_slots each none_for short empty = total-zero f l.classes (λ c m at. class c m at)
  where
    below : (c : ℕ) (slots : List Reserved) → get_elem? l.classes c ≡ some (some slots) → c < 8
    below c slots at = elim (Bool-cases (ltb c 8)) [
      | inl lt ↦ lt_of_ltb-true _ _ lt
      | inr ge ↦ let past = short c (ground (arith, ge)) in ground (arith, at, past)
    ]

    class : (c : ℕ) (m : Option (List Reserved)) → get_elem? l.classes c ≡ some m → f m ≡ 0
    class c none at = no_slots
    class c (some slots) at =
        each slots
        ∙ total-zero w slots
            (λ x r here. none_for r (empty c slots at x r here (inl (below c slots at))))

-- On a consistent allocator (the lower one sound, the entries and the slots valid, and no tree with
-- more frames on its counter and on slots than its children count) with slots of classes below 8
-- alone, in which a tree is marked as reserved exactly when a slot reserves it, and then one slot
-- does, `llfree_drain` does not fail an assertion, leaves a consistent allocator and does not
-- change the lower one. After it every slot is empty, no tree is reserved, and the counter of each
-- tree is what it was before plus the frames that the slots had of that tree.
pub llfree_drain_lem :
    (frames : ℕ) (shape : ℕ → Option (Option ℕ)) (s : Llfree)
    → ((c : ℕ) → 8 ≤ c → shape c ≡ none)
    → IsUpper frames shape [] s
    → IsPaired s
    → (s' : Llfree) × (llfree_drain s ≡ some s')
      × IsUpper frames shape [] s'
      × (s'.lower ≡ s.lower)
      × ((c x : ℕ) (r : Reserved) → get_slot s'.local c x ≡ some r → r.present ≡ false)
      × ((i : ℕ) (t : Tree) → get_elem? s'.trees.entries i ≡ some t → t.reserved ≡ false)
      × ((i : ℕ) → counter s'.trees i ≡ counter s.trees i + held s.local i)
llfree_drain_lem frames shape s eight u paired =
    let (s', ran, d) = llfree_drain-Drains frames shape s u in
    let (paired', frames_kept) = d.returned paired in
    let short : (c : ℕ) → 8 ≤ c → get_elem? s'.local.classes c ≡ none =
      λ c past. no_class (get_elem? s'.local.classes c) (d.upper.slots.shaped c ∙ eight c past) in
    let none_claimed = λ (i : ℕ).
      empty_sum s'.local (slot_claims i) (class_claims i) refl (λ slots. refl)
        (λ r e. ground (arith, e)) short d.empty in
    let none_held = λ (i : ℕ).
      empty_sum s'.local (slot_frames i) (class_frames i) refl (λ slots. refl)
        (λ r e. ground (arith, e)) short d.empty in
    (
      s',
      ran,
      d.upper,
      d.same,
      λ c x r at.
          let has = HasSlot_of_get s'.local c x r at in
          d.empty c has.slots has.at_class x r has.at_slot (inl (lt_of_ltb-true _ _ has.class_ok)),
      λ i t at.
          let claimed = paired' i ∙ ap reserved_of at in
          let zero_claims = none_claimed i in ground (arith, claimed, zero_claims),
      λ i. omega (arith, frames_kept i, none_held i),
    )
  where
    no_class : (m : Option (Option (List Reserved))) → count_at m ≡ none → m ≡ none
    no_class none e = refl
    no_class (some slots) e = ground (arith, e)
