-- ===== src/Llfree/Upper/Reserve.antt =====
-- `reserve_or_steal_cb` and `steal_cb` of src/llfree.c under the invariant.
use llfree_c.Base.{
  ℕ, ◌+◌, ◌/◌, ◌^◌, ◌≤◌, ◌<◌, ◌≡◌, ◌⊎◌, inl, inr, refl, arith, if◌then◌else◌, Bool-cases,
  Option-cases, Option, some, none, List, ◌∷◌,
}
use llfree_c.Utils.{tree_from_row}
use llfree_c.Tree.{tree_steal, tree_reserve_or_steal}
use llfree_c.Tree.Laws.{tree_steal_lem, tree_reserve_or_steal_lem}
use llfree_c.Trees.{Trees, Taken, put_entry, trees_steal, trees_reserve_or_steal}
use llfree_c.Local.Laws.{HasSlot_of_get}
use llfree_c.Llfree.{Llfree, swap_reserved, give_back}
use llfree_c.Llfree.Upper.{IsUpper}
use llfree_c.Llfree.Upper.Steps.{entry_step, hand_step}
use llfree_c.Llfree.Upper.Entries.{entry_at, put_back_lem, unreserve_lem}
use llfree_c.Llfree.Upper.Slots.{slot_at, present-IsSlot}
use llfree_c.Llfree.Upper.Swaps.{ll_local_swap-step}

-- The frames that a reservation or a steal takes.
abbrev pub taken_frames : ℕ → Taken → ℕ
taken_frames n taken = if taken.reserved then taken.free else n

module _ {frames : ℕ} {shape : ℕ → Option (Option ℕ)} {hand : List (ℕ × ℕ)} where
  -- The frames that leave the counter come to the hand.
  pub trees_steal-step :
      (s : Llfree) (k n class : ℕ)
      → IsUpper frames shape hand s
      → k < (frames + 4095) / 4096
      → class < 8
      → (trees_steal s.trees k n class s.policy ≡ some none)
        ⊎ ((t : Trees) × (class' : ℕ) × (trees_steal s.trees k n class s.policy
              ≡ some (some (t, class')))
            × IsUpper frames shape ((k, n) ∷ hand) (record s { trees = t }))
  unfolding trees_steal
  trees_steal-step s k n class u lt class_lt =
      let (t, at, load, valid) = entry_at k u lt in
      elim (Option-cases (tree_steal t n class s.policy)) [
        | inl refused ↦ inl (cc (load, refused))
        | inr ((t', class'), taken) ↦
            let (valid', free, _, _) =
              tree_steal_lem t t' n class class' s.policy valid class_lt taken in
            inr (
              put_entry s.trees k t',
              class',
              cc (load, taken),
              entry_step k t t' u at valid' (λ i. ground (arith, free)),
            )
      ]

  pub trees_reserve_or_steal-step :
      (s : Llfree) (k n class : ℕ)
      → IsUpper frames shape hand s
      → k < (frames + 4095) / 4096
      → class < 8
      → (trees_reserve_or_steal s.trees k n s.policy class ≡ some none)
        ⊎ ((t : Trees) × (taken : Taken) × (trees_reserve_or_steal s.trees k n s.policy class
              ≡ some (some (t, taken)))
            × IsUpper frames shape ((k, taken_frames n taken) ∷ hand) (record s { trees = t })
            × (n ≤ taken.free)
            × (taken.free ≤ 4096)
            × (taken.class < 8))
  unfolding trees_reserve_or_steal
  trees_reserve_or_steal-step s k n class u lt class_lt =
      let (t, at, load, valid) = entry_at k u lt in
      elim (Option-cases (tree_reserve_or_steal t n s.policy class)) [
        | inl refused ↦ inl (cc (load, refused))
        | inr ((t', reserved, class'), done) ↦
            let (valid', _, enough, classed, _, free) =
              tree_reserve_or_steal_lem t t' n class class' s.policy reserved valid class_lt done in
            let class_valid = valid'.classed in
            inr (
              put_entry s.trees k t',
              record { reserved = reserved; free = t.free; class = class' },
              cc (load, done),
              entry_step k t t' u at valid' (λ i. ground (arith, free, enough)),
              enough,
              valid.bounded,
              omega (arith, classed, class_valid),
            )
      ]

  pub give_back_lem :
      (s : Llfree) (k n : ℕ) (taken : Taken)
      → IsUpper frames shape ((k, taken_frames n taken) ∷ hand) s
      → k < (frames + 4095) / 4096
      → taken.class < 8
      → (s' : Llfree) × (give_back s k n taken ≡ some s')
        × IsUpper frames shape hand s'
        × (s'.lower ≡ s.lower)
  unfolding give_back
  give_back_lem s k n taken u lt class_lt = elim (Bool-cases taken.reserved) [
    | inl reserved ↦
        let (s', ran, u', same, _) =
          unreserve_lem s k taken.free taken.class (hand_step u (λ i. ground (arith, reserved))) lt
            class_lt in
        (s', cc (reserved, ran), u', same)
    | inr stolen ↦
        let (s', ran, u', same, _) =
          put_back_lem s k n (hand_step u (λ i. ground (arith, stolen))) lt in
        (s', cc (stolen, ran), u', same)
  ]

  pub swap_reserved_lem :
      (s : Llfree) (c x k n len : ℕ)
      → frames < 2 ^ 41
      → IsUpper frames shape ((k, n) ∷ hand) s
      → k < (frames + 4095) / 4096
      → n ≤ 4096
      → c < 8
      → shape c ≡ some (some len)
      → x < len
      → (s' : Llfree) × (swap_reserved s c x k n ≡ some s')
        × IsUpper frames shape hand s'
        × (s'.lower ≡ s.lower)
  unfolding swap_reserved
  swap_reserved_lem s c x k n len few u lt bound class_lt configured inside =
      let (old, at) = slot_at frames shape s.local c x len u.slots class_lt configured inside in
      let good = present-IsSlot s c x old u (HasSlot_of_get s.local c x old at) in
      let (l, ran, u') = ll_local_swap-step s c x k n old few u lt bound at in
      elim (Bool-cases old.present) [
        | inl present ↦
            let row = good.inside present in
            let (s', done, u'', same, _) =
              unreserve_lem (record s { local = l }) (tree_from_row old.start_row) old.free c
                (hand_step u' (λ i. ground (arith, present))) (omega (arith, row)) class_lt in
            (s', cc (ran, present, done), u'', same)
        | inr absent ↦ (
          record s { local = l },
          cc (ran, absent),
          hand_step u' (λ i. ground (arith, absent)),
          refl,
        )
      ]
