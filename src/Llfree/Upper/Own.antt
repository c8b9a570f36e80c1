-- ===== src/Llfree/Upper/Own.antt =====
-- `sync_with_global` of src/llfree.c under the invariant.
use llfree_c.Base.{
  ℕ, ◌+◌, ◌-◌, ◌/◌, ◌<◌, ◌≡◌, ◌⊎◌, inl, inr, refl, arith, Bool, true, false, leb, Bool-cases,
  Option-cases, Option, some, none, List, ◌∷◌,
}
use llfree_c.Utils.{tree_from_row}
use llfree_c.Tree.{Tree, tree_sync_steal}
use llfree_c.Tree.Laws.{IsTree}
use llfree_c.Trees.{Trees, put_entry, trees_sync_steal}
use llfree_c.Local.{LocalResult}
use llfree_c.Llfree.{Llfree, sync_with_global}
use llfree_c.Llfree.Upper.{IsUpper}
use llfree_c.Llfree.Upper.Steps.{entry_step}
use llfree_c.Llfree.Upper.Entries.{entry_at, put_back_lem}
use llfree_c.Llfree.Upper.Slots.{slot_at, ll_local_put-step}

tree_sync_steal_lem :
    (t t' : Tree) (min : ℕ) → IsTree t → tree_sync_steal t min ≡ some t' → IsTree t' × (t'.free ≡ 0)
unfolding tree_sync_steal
tree_sync_steal_lem t t' min valid e = ground (arith, e)

module _ {frames : ℕ} {shape : ℕ → Option (Option ℕ)} {hand : List (ℕ × ℕ)} where
  trees_sync_steal-step :
      (s : Llfree) (k min : ℕ)
      → IsUpper frames shape hand s
      → k < (frames + 4095) / 4096
      → (trees_sync_steal s.trees k min ≡ some none)
        ⊎ ((t : Trees) × (n : ℕ) × (trees_sync_steal s.trees k min ≡ some (some (t, n)))
            × IsUpper frames shape ((k, n) ∷ hand) (record s { trees = t }))
  unfolding trees_sync_steal
  trees_sync_steal-step s k min u lt =
      let (t, at, load, valid) = entry_at k u lt in
      elim (Option-cases (tree_sync_steal t min)) [
        | inl refused ↦ inl (cc (load, refused))
        | inr (t', taken) ↦
            let (valid', free) = tree_sync_steal_lem t t' min valid taken in
            inr (
              put_entry s.trees k t',
              t.free,
              cc (load, taken),
              entry_step k t t' u at valid' (λ i. ground (arith, free)),
            )
      ]

  -- The slot gets the frames of its tree, or the counters are as they were.
  pub sync_with_global_lem :
      (s : Llfree) (c x len needed : ℕ) (old : LocalResult)
      → IsUpper frames shape hand s
      → c < 8
      → shape c ≡ some (some len)
      → x < len
      → old.present ≡ true
      → tree_from_row old.start_row < (frames + 4095) / 4096
      → (s' : Llfree) × (synced : Bool) × (sync_with_global s c x needed old ≡ some (s', synced))
        × IsUpper frames shape hand s'
        × (s'.lower ≡ s.lower)
  unfolding sync_with_global
  sync_with_global_lem s c x len needed old u class_lt configured inside present lt =
      elim (Bool-cases (leb needed old.free)) [
        | inl enough ↦ (s, false, cc (present, enough), u, refl)
        | inr few ↦
            elim (trees_sync_steal-step s (tree_from_row old.start_row) (needed - old.free) u lt) [
              | inl refused ↦ (s, false, cc (present, few, refused), u, refl)
              | inr (t, n, stolen, u') ↦
                  let (r, at) =
                    slot_at frames shape s.local c x len u.slots class_lt configured inside in
                  elim (ll_local_put-step (record s { trees = t }) c x (tree_from_row old.start_row)
                    n r u' lt at) [
                      | inl (l, done, u'') ↦ (
                        record s { trees = t; local = l },
                        true,
                        cc (present, few, stolen, done),
                        u'',
                        refl,
                      )
                      | inr kept ↦
                          let (s', back, u'', same, _) =
                            put_back_lem (record s { trees = t }) (tree_from_row old.start_row) n u'
                              lt in
                          (s', false, cc (present, few, stolen, kept, back), u'', same)
                    ]
            ]
      ]
