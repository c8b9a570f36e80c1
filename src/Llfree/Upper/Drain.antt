-- ===== src/Llfree/Upper/Drain.antt =====
-- `llfree_drain` of src/llfree.c under the invariant.
use mathlib.Core.Path.{subst}
use llfree_c.Base.{
  ◌∷◌, ◌/◌, ℕ, zero, suc, ◌+◌, ◌<◌, ◌≡◌, inl, inr, refl, sym, ap, ◌∙◌, arith, Bool-cases, Option,
  some, none, [], ◌==◌, false, length, lt_of_get_elem?,
}
use llfree_c.Utils.{tree_from_row}
use llfree_c.Trees.{put_entry}
use llfree_c.Local.{Reserved, Locals, put_slot}
use llfree_c.Local.Laws.{HasSlot_of_get}
use llfree_c.Llfree.{Llfree, slots_of}
use llfree_c.Llfree.Manage.{drain_slot, drain_slots, drain_classes, llfree_drain}
use llfree_c.Llfree.Upper.{IsUpper, IsLocal, count_at}
use llfree_c.Llfree.Upper.Steps.{hand_step}
use llfree_c.Llfree.Upper.Entries.{entry_at, unreserve_lem, unreserve-reserved}
use llfree_c.Llfree.Upper.Slots.{slot_at, present-IsSlot}
use llfree_c.Llfree.Upper.Swaps.{ll_local_drain-step}
use llfree_c.Llfree.Upper.Paired.{
  IsPaired, SameFrames, EmptyBefore, give_up, stay_empty, reserved_at, put_slot-EmptyBefore,
}
use llfree_c.Llfree.Upper.Requests.{ll_local_class_locals_lem}

-- What a part of the drain does, up to slot `i` of class `c`.
pub record Drains (frames : ℕ) (shape : ℕ → Option (Option ℕ)) (s s' : Llfree) (c i : ℕ)
    : Type 0 where
  pub upper : IsUpper frames shape [] s'
  pub same : s'.lower ≡ s.lower
  pub empty : EmptyBefore s'.local c i
  pub returned : IsPaired s → IsPaired s' × SameFrames s s'

Drains-trans :
    {frames : ℕ} {shape : ℕ → Option (Option ℕ)} (s s1 s2 : Llfree) (c i c' i' : ℕ)
    → Drains frames shape s s1 c i
    → Drains frames shape s1 s2 c' i'
    → Drains frames shape s s2 c' i'
Drains-trans s s1 s2 c i c' i' a b = record {
  upper = b.upper;
  same = b.same ∙ a.same;
  empty = b.empty;
  returned = λ paired.
      let (paired1, first) = a.returned paired in
      let (paired2, second) = b.returned paired1 in (paired2, λ k. second k ∙ first k);
}

-- After the last slot of a class.
next_class :
    {frames : ℕ} {shape : ℕ → Option (Option ℕ)} (l : Locals) (c : ℕ) (k : Option ℕ)
    → IsLocal frames shape l
    → shape c ≡ some k
    → EmptyBefore l c (slots_of k)
    → EmptyBefore l (c + 1) 0
next_class {shape} l c k local configured empty j slots at x r here behind =
    let lt = lt_of_get_elem? slots x r here in
    elim (Bool-cases (j == c)) [
      | inl same ↦
          let place : j ≡ c = ground arith in
          let count : some (some (length slots)) ≡ some k =
            sym (ap count_at at) ∙ local.shaped j ∙ ap shape place ∙ configured in
          empty j slots at x r here (inr (place, ground (arith, count, lt)))
      | inr other ↦ empty j slots at x r here (inl (ground (arith, behind, other)))
    ]

module _ {frames : ℕ} {shape : ℕ → Option (Option ℕ)} where
  drain_slot_lem :
      (c i len : ℕ) (s : Llfree)
      → c < 8
      → shape c ≡ some (some len)
      → i < len
      → IsUpper frames shape [] s
      → EmptyBefore s.local c i
      → (s' : Llfree) × (drain_slot c i s ≡ some s') × Drains frames shape s s' c (i + 1)
  unfolding drain_slot
  drain_slot_lem c i len s class_lt configured lt u empty =
      let (old, got) = slot_at frames shape s.local c i len u.slots class_lt configured lt in
      let has = HasSlot_of_get s.local c i old got in
      let good = present-IsSlot s c i old u has in
      let q : Reserved = record { present = false; free = 0; start_row = 0 } in
      let l = put_slot s.local c i q in
      let (ran, u') = ll_local_drain-step s c i old u got in
      let emptied = put_slot-EmptyBefore s.local c i old q has refl empty in
      elim (Bool-cases old.present) [
        | inr absent ↦ (
          record s { local = l },
          cc (ran, absent),
          record {
            upper = hand_step u' (λ k. ground (arith, absent));
            same = refl;
            empty = emptied;
            returned = stay_empty s c i old q has absent refl;
          },
        )
        | inl present ↦
            let row = good.inside present in
            let k = tree_from_row old.start_row in
            let k_lt : k < (frames + 4095) / 4096 = omega (arith, row) in
            let (t, at, _, _) = entry_at k u k_lt in
            let in_hand_now =
              hand_step {hand' = (k, old.free) ∷ []} u' (λ j. ground (arith, present)) in
            elim (Bool-cases t.reserved) [
              | inl reserved ↦
                  let (t', done, u'', free, open_tree) =
                    unreserve-reserved (record s { local = l }) k old.free c t in_hand_now k_lt
                      class_lt at reserved in
                  (
                    record s { local = l; trees = put_entry s.trees k t' },
                    cc (ran, present, done),
                    record {
                      upper = u'';
                      same = refl;
                      empty = emptied;
                      returned = give_up s c i k t t' old q has present refl refl at free open_tree;
                    },
                  )
              | inr open_tree ↦
                  let (s', done, u'', same, kept) =
                    unreserve_lem (record s { local = l }) k old.free c in_hand_now k_lt class_lt in
                  (
                    s',
                    cc (ran, present, done),
                    record {
                      upper = u'';
                      same = same;
                      empty = subst (λ m. EmptyBefore m c (i + 1)) (sym kept) emptied;
                      returned = λ paired.
                          let reserved =
                            reserved_at s c i k t old q has present refl refl at paired in
                          absurd (ground (arith, reserved, open_tree));
                    },
                  )
            ]
      ]

  drain_slots_lem :
      (left c i len : ℕ) (s : Llfree)
      → c < 8
      → shape c ≡ some (some len)
      → i + left ≡ len
      → IsUpper frames shape [] s
      → EmptyBefore s.local c i
      → (s' : Llfree) × (drain_slots left c i s ≡ some s') × Drains frames shape s s' c len
  unfolding drain_slots
  drain_slots_lem zero c i len s class_lt configured end u empty =
      let at_end : i ≡ len = omega (arith, end) in
      (
        s,
        refl,
        record {
          upper = u;
          same = refl;
          empty = subst (EmptyBefore s.local c) at_end empty;
          returned = λ paired. (paired, λ k. refl);
        },
      )
  drain_slots_lem (suc left) c i len s class_lt configured end u empty =
      let (s1, first, a) =
        drain_slot_lem c i len s class_lt configured (omega (arith, end)) u empty in
      let (s2, rest, b) =
        drain_slots_lem left c (i + 1) len s1 class_lt configured (omega (arith, end)) a.upper
          a.empty in
      (s2, cc (first, rest), Drains-trans s s1 s2 c (i + 1) c len a b)

  -- The slots of a class, of which a class that is not configured has none.
  drain_class_lem :
      (c : ℕ) (k : Option ℕ) (s : Llfree)
      → c < 8
      → shape c ≡ some k
      → IsUpper frames shape [] s
      → EmptyBefore s.local c 0
      → (s' : Llfree) × (drain_slots (slots_of k) c 0 s ≡ some s')
        × Drains frames shape s s' c (slots_of k)
  unfolding drain_slots
  drain_class_lem c none s class_lt configured u empty = (
    s,
    refl,
    record { upper = u; same = refl; empty = empty; returned = λ paired. (paired, λ k. refl) },
  )
  drain_class_lem c (some len) s class_lt configured u empty =
      drain_slots_lem len c 0 len s class_lt configured (omega arith) u empty

  drain_classes_lem :
      (left c : ℕ) (s : Llfree)
      → c + left ≡ 8
      → IsUpper frames shape [] s
      → EmptyBefore s.local c 0
      → (s' : Llfree) × (drain_classes left c s ≡ some s') × Drains frames shape s s' 8 0
  unfolding drain_classes
  drain_classes_lem zero c s end u empty =
      let at_end : c ≡ 8 = omega (arith, end) in
      (
        s,
        refl,
        record {
          upper = u;
          same = refl;
          empty = subst (λ j. EmptyBefore s.local j 0) at_end empty;
          returned = λ paired. (paired, λ k. refl);
        },
      )
  drain_classes_lem (suc left) c s end u empty =
      let (k, read, configured) =
        ll_local_class_locals_lem frames shape s.local c u.slots (omega (arith, end)) in
      let (s1, first, a) = drain_class_lem c k s (omega (arith, end)) configured u empty in
      let (s2, rest, b) =
        drain_classes_lem left (c + 1) s1 (omega (arith, end)) a.upper
          (next_class s1.local c k a.upper.slots configured a.empty) in
      (s2, cc (read, first, rest), Drains-trans s s1 s2 c (slots_of k) 8 0 a b)

-- The drain of any allocator with the invariant.
pub llfree_drain-Drains :
    (frames : ℕ) (shape : ℕ → Option (Option ℕ)) (s : Llfree)
    → IsUpper frames shape [] s
    → (s' : Llfree) × (llfree_drain s ≡ some s') × Drains frames shape s s' 8 0
unfolding llfree_drain
llfree_drain-Drains frames shape s u =
    drain_classes_lem 8 0 s refl u (λ k slots at x r here behind. absurd (omega (arith, behind)))
