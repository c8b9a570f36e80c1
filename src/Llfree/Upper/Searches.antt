-- ===== src/Llfree/Upper/Searches.antt =====
-- `trees_search_best` of src/trees.c with a callback of src/llfree.c.
use native.Mathlib.Nat.{mod-lt}
use llfree_c.Base.{
  ℕ, zero, suc, ◌+◌, ◌-◌, ◌/◌, ◌%◌, ◌<◌, ◌≡◌, ◌⊎◌, inl, inr, refl, true, false, ◌==◌, ltb,
  Bool-cases, Option, some, none, List, [], ◌∷◌, get_elem?, replicate,
}
use llfree_c.Types.{Outcome, Policy, llfree_ok, llfree_err, memory}
use llfree_c.Utils.{u8}
use llfree_c.Tree.{Tree, is_invalid_policy}
use llfree_c.Trees.{Trees}
use llfree_c.Trees.Search.{
  Best, drop_last, insert_best, is_perfect, search_index, search_best, try_best, best_from,
  trees_search_best,
}
use llfree_c.Llfree.{Llfree}
use llfree_c.Llfree.Upper.{IsUpper}
use llfree_c.Llfree.Upper.Entries.{entry_at}
use llfree_c.Llfree.Upper.Ends.{Gives, Gives-eq, Gives-from, refuse-Gives, follow-Gives}

-- Every candidate is a tree of the array.
abbrev AllInside : ℕ → List Best → Type 0
AllInside len [] = Unit
AllInside len (b ∷ rest) = (b.idx < len) × AllInside len rest

drop_last-AllInside :
    (len : ℕ) (b : Best) (rest : List Best)
    → b.idx < len
    → AllInside len rest
    → AllInside len (drop_last b rest)
unfolding drop_last
drop_last-AllInside len b [] lt all = record {}
drop_last-AllInside len b (c ∷ rest) lt (c_lt, all) = (lt, drop_last-AllInside len c rest c_lt all)

insert_best-AllInside :
    (len prio idx : ℕ) (best : List Best)
    → idx < len
    → AllInside len best
    → AllInside len (insert_best prio idx best)
unfolding insert_best
insert_best-AllInside len prio idx [] lt all = record {}
insert_best-AllInside len prio idx (b ∷ rest) lt (b_lt, all) = elim (Bool-cases (ltb b.prio prio)) [
  | inl better ↦ rw better (lt, drop_last-AllInside len b rest b_lt all)
  | inr worse ↦ rw worse (b_lt, insert_best-AllInside len prio idx rest lt all)
]

none_inside :
    (len count : ℕ) → 0 < len → AllInside len (replicate count (record { prio = 0; idx = 0 }))
none_inside len zero lt = record {}
none_inside len (suc count) lt = (lt, none_inside len count lt)

search_index-lt : (len start i : ℕ) → 0 < len → search_index len start i < len
unfolding search_index
search_index-lt len start i lt = elim (Bool-cases (i % 2 == 0)) [
  | inl even ↦ rw even (mod-lt _ lt)
  | inr odd ↦ rw odd (mod-lt _ lt)
]

abbrev pub view : Llfree → Trees
view s = s.trees

module _ (rate : ℕ → ℕ → Policy) (cb : ℕ → Llfree → Option (Llfree × Outcome)) where
  -- The rounds.
  best_from-skip :
      (len start left i : ℕ) (best : List Best) (s : Llfree) (t : Tree)
      → get_elem? s.trees.entries (search_index len start i) ≡ some t
      → (t.reserved ≡ true) ⊎ (is_invalid_policy (rate t.class t.free).type ≡ true)
      → best_from view rate cb len start (suc left) i best s
        ≡ best_from view rate cb len start left (i + 1) best s
  unfolding best_from
  best_from-skip len start left i best s t at (inl reserved) = cc (at, reserved)
  best_from-skip len start left i best s t at (inr unfit) = elim (Bool-cases t.reserved) [
    | inl reserved ↦ cc (at, reserved)
    | inr open_tree ↦ cc (at, open_tree, unfit)
  ]

  best_from-later :
      (len start left i : ℕ) (best : List Best) (s : Llfree) (t : Tree)
      → get_elem? s.trees.entries (search_index len start i) ≡ some t
      → t.reserved ≡ false
      → is_invalid_policy (rate t.class t.free).type ≡ false
      → is_perfect (rate t.class t.free) ≡ false
      → best_from view rate cb len start (suc left) i best s
        ≡ best_from view rate cb len start left
            (i + 1)
            (insert_best (u8 ((rate t.class t.free).priority + 1)) (search_index len start i) best)
            s
  unfolding best_from
  best_from-later len start left i best s t at open_tree fit other = cc (at, open_tree, fit, other)

  module _ (len start left i : ℕ) (best : List Best) (s : Llfree) (t : Tree)
      (at : get_elem? s.trees.entries (search_index len start i) ≡ some t)
      (open_tree : t.reserved ≡ false) (fit : is_invalid_policy (rate t.class t.free).type ≡ false)
      (perfect : is_perfect (rate t.class t.free) ≡ true) (s' : Llfree) where
    best_from-hit :
        (frame class : ℕ)
        → cb (search_index len start i) s ≡ some (s', llfree_ok frame class)
        → best_from view rate cb len start (suc left) i best s ≡ some (s', llfree_ok frame class)
    unfolding best_from
    best_from-hit frame class ran = cc (at, open_tree, fit, perfect, ran)

    best_from-miss :
        cb (search_index len start i) s ≡ some (s', llfree_err memory)
        → best_from view rate cb len start (suc left) i best s
          ≡ best_from view rate cb len start left (i + 1) best s'
    unfolding best_from
    best_from-miss ran = cc (at, open_tree, fit, perfect, ran)

  module _ {frames : ℕ} {shape : ℕ → Option (Option ℕ)} {n : ℕ} (trees : 0 < (frames + 4095) / 4096)
      (each : (s : Llfree) (idx : ℕ)
        → IsUpper frames shape [] s
        → idx < (frames + 4095) / 4096
        → Gives frames shape n none s.lower (cb idx s)) where
    try_best-Gives :
        (best : List Best) (s : Llfree)
        → IsUpper frames shape [] s
        → AllInside ((frames + 4095) / 4096) best
        → Gives frames shape n none s.lower (try_best view rate cb best s)
    unfolding try_best
    try_best-Gives [] s u all = refuse-Gives s refl u refl
    try_best-Gives (b ∷ rest) s u (lt, all) = elim (Bool-cases (b.prio == 0)) [
      | inl last ↦ refuse-Gives s (cc last) u refl
      | inr used ↦
          follow-Gives (cb b.idx s) (try_best view rate cb (b ∷ rest) s) (each s b.idx u lt)
            (λ t frame class e. cc (used, e))
            (λ t e u' same.
              Gives-eq (cc (used, e)) (Gives-from same (try_best-Gives rest t u' all)))
    ]

    best_from-Gives :
        (start left i : ℕ) (best : List Best) (s : Llfree)
        → IsUpper frames shape [] s
        → AllInside ((frames + 4095) / 4096) best
        → Gives frames shape n none s.lower
            (best_from view rate cb ((frames + 4095) / 4096) start left i best s)
    unfolding best_from
    best_from-Gives start zero i best s u all = try_best-Gives best s u all
    best_from-Gives start (suc left) i best s u all =
        let len = (frames + 4095) / 4096 in
        let idx_lt = search_index-lt len start i trees in
        let (t, at, _, _) = entry_at (search_index len start i) u idx_lt in
        let p = rate t.class t.free in
        elim (Bool-cases t.reserved) [
          | inl reserved ↦
              Gives-eq (best_from-skip len start left i best s t at (inl reserved))
                (best_from-Gives start left (i + 1) best s u all)
          | inr open_tree ↦ elim (Bool-cases (is_invalid_policy p.type)) [
            | inl unfit ↦
                Gives-eq (best_from-skip len start left i best s t at (inr unfit))
                  (best_from-Gives start left (i + 1) best s u all)
            | inr fit ↦ elim (Bool-cases (is_perfect p)) [
              | inl perfect ↦
                  follow-Gives (cb (search_index len start i) s)
                    (best_from view rate cb len start (suc left) i best s)
                    (each s (search_index len start i) u idx_lt)
                    (best_from-hit len start left i best s t at open_tree fit perfect)
                    (λ s' e u' same.
                      Gives-eq
                        (best_from-miss len start left i best s t at open_tree fit perfect s' e)
                        (Gives-from same (best_from-Gives start left (i + 1) best s' u' all)))
              | inr other ↦
                  Gives-eq (best_from-later len start left i best s t at open_tree fit other) (
                    best_from-Gives start left (i + 1) _ s u
                      (insert_best-AllInside len _ _ best idx_lt all))
            ]
          ]
        ]

    pub trees_search_best-Gives :
        (start offset bound : ℕ) (s : Llfree)
        → IsUpper frames shape [] s
        → Gives frames shape n none s.lower (trees_search_best view rate cb start offset bound s)
    unfolding trees_search_best
    trees_search_best-Gives start offset bound s u =
        let len = u.array.len in
        Gives-eq (cc len) (
          best_from-Gives start (bound - offset) offset
            (replicate search_best (record { prio = 0; idx = 0 })) s u
            (none_inside ((frames + 4095) / 4096) search_best trees))
