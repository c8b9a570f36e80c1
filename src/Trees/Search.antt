-- ===== src/Trees/Search.antt =====
-- `trees_search`, `trees_search_best` and `trees_change` of src/trees.c. A callback works on the
-- state `S` of the caller, in which `view` finds the tree array.
use llfree_c.Base.{
  ℕ, zero, suc, ◌+◌, ◌-◌, ◌/◌, ◌%◌, Bool, true, false, Option, none, some, List, [], ◌∷◌, ltb, leb,
  ◌==◌, if◌then◌else◌, ◌>>=◌, get_elem?, replicate,
}
use llfree_c.Types.{
  tree_size, uint8_max, Outcome, llfree_ok, llfree_err, is_memory, memory, Policy, matched,
  TreeOperation, online,
}
use llfree_c.Utils.{u64, u32, u8, sub64}
use llfree_c.Tree.{tree_change, is_invalid_policy}
use llfree_c.Trees.{Trees, put_entry}

-- The tree of round `i`: start, start - 1, start + 1, start - 2, ..., round the array.
unfoldable pub search_index : ℕ → ℕ → ℕ → ℕ
search_index len start i =
    let base = start + len in
    if i % 2 == 0 then u64 (base + i / 2) % len else sub64 base ((i + 1) / 2) % len

module _ {S : Type 0} (cb : ℕ → S → Option (S × Outcome)) where
  -- The rounds from `i` on, `left` of them.
  unfoldable pub search_from : ℕ → ℕ → ℕ → ℕ → S → Option (S × Outcome)
  search_from len start zero i s = some (s, llfree_err memory)
  search_from len start (suc left) i s = do
    (s', res) ← cb (search_index len start i) s
    elim (is_memory res.error) [
      | true ↦ search_from len start left (i + 1) s'
      | false ↦ some (s', res)
    ]

  unfoldable pub trees_search : ℕ → ℕ → ℕ → ℕ → S → Option (S × Outcome)
  trees_search len start offset bound s = search_from len start (bound - offset) offset s

-- `struct best`: a priority, 0 where there is no candidate, and a tree.
pub record Best : Type 0 where
  pub prio : ℕ
  pub idx : ℕ

-- What stays of the tail of `best` when one more comes in front.
unfoldable pub drop_last : Best → List Best → List Best
drop_last b [] = []
drop_last b (c ∷ rest) = b ∷ drop_last c rest

unfoldable pub insert_best : ℕ → ℕ → List Best → List Best
unfolding drop_last
insert_best prio idx [] = []
insert_best prio idx (b ∷ rest) =
    if ltb b.prio prio
    then record { prio = prio; idx = idx } ∷ drop_last b rest
    else b ∷ insert_best prio idx rest

abbrev pub is_perfect : Policy → Bool
is_perfect p = elim (p.type) [ matched ↦ p.priority == uint8_max | _ ↦ false ]

abbrev pub search_best : ℕ
search_best = 8

module _ {S : Type 0} (view : S → Trees) (rate : ℕ → ℕ → Policy)
    (cb : ℕ → S → Option (S × Outcome)) where
  -- The loop over the candidates, in order, up to the first that is none.
  unfoldable pub try_best : List Best → S → Option (S × Outcome)
  try_best [] s = some (s, llfree_err memory)
  try_best (b ∷ rest) s = elim (b.prio == 0) [
    | true ↦ some (s, llfree_err memory)
    | false ↦ do
      (s', res) ← cb b.idx s
      elim (is_memory res.error) [ true ↦ try_best rest s' | false ↦ some (s', res) ]
  ]

  -- The rounds of the first loop from `i` on, `left` of them, and then the candidates.
  unfoldable pub best_from : ℕ → ℕ → ℕ → ℕ → List Best → S → Option (S × Outcome)
  best_from len start zero i best s = try_best best s
  best_from len start (suc left) i best s =
      let idx = search_index len start i in
      do
        t ← get_elem? (view s).entries idx
        let p = rate t.class t.free
        elim t.reserved [
          | true ↦ best_from len start left (i + 1) best s
          | false ↦ elim (is_invalid_policy p.type) [
            | true ↦ best_from len start left (i + 1) best s
            | false ↦ elim (is_perfect p) [
              | true ↦ do
                (s', res) ← cb idx s
                elim (is_memory res.error) [
                  | true ↦ best_from len start left (i + 1) best s'
                  | false ↦ some (s', res)
                ]
              | false ↦
                  best_from len start left (i + 1) (insert_best (u8 (p.priority + 1)) idx best) s
            ]
          ]
        ]

  unfoldable pub trees_search_best : ℕ → ℕ → ℕ → S → Option (S × Outcome)
  trees_search_best start offset bound s =
      best_from (view s).len start (bound - offset) offset
        (replicate search_best (record { prio = 0; idx = 0 })) s

-- `llfree_tree_match_t` and `llfree_tree_change_t`.
pub record TreeMatch : Type 0 where
  pub id : Option ℕ
  pub class : ℕ
  pub free : ℕ

pub record TreeChange : Type 0 where
  pub class : ℕ
  pub operation : TreeOperation

abbrev pub is_online : TreeOperation → Bool
is_online online = true
is_online _ = false

-- The loop of `trees_change_at` with an exchange that succeeds.
unfoldable pub trees_change_at :
    TreeMatch → TreeChange → (ℕ → Option ℕ) → ℕ → Trees → Option (Trees × Outcome)
trees_change_at matcher change fetch_free idx s = do
  old ← get_elem? s.entries idx
  online_free ← if is_online change.operation then fetch_free idx else some 0
  some
      (elim (tree_change old matcher.class (u32 matcher.free) change.class change.operation
        online_free) [
          | some desired ↦ (put_entry s idx desired, llfree_ok 0 0)
          | none ↦ (s, llfree_err memory)
        ])

unfoldable pub trees_change :
    Trees → TreeMatch → TreeChange → (ℕ → Option ℕ) → Option (Trees × Outcome)
trees_change s matcher change fetch_free =
    if ltb tree_size matcher.free then some (s, llfree_err memory) else elim matcher.id [
      | some i ↦
          if leb s.len i
          then some (s, llfree_err memory)
          else trees_change_at matcher change fetch_free i s
      | none ↦ trees_search (trees_change_at matcher change fetch_free) s.len 0 0 s.len s
    ]
