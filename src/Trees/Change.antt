-- ===== src/Trees/Change.antt =====
-- `trees_change` of src/trees.c: a tree that is taken offline and brought online again.
use llfree_c.Base.{
  ℕ, ◌%◌, ◌^◌, ◌≤◌, ◌<◌, ◌≡◌, ◌⊎◌, refl, ap, ◌∙◌, arith, true, false, ltb, Option, some, none, List,
  get_elem?, get_elem?-set_self, lt_of_get_elem?, set-set, set_of_get_elem?, ltb-true,
}
use llfree_c.Types.{PolicyFn, Outcome, llfree_ok, class_none, online, offline}
use llfree_c.Tree.{Tree, tree_change, tree_steal, tree_reserve_or_steal}
use llfree_c.Tree.Laws.{IsTree}
use llfree_c.Trees.{Trees, put_entry, trees_load, trees_steal, trees_reserve_or_steal}
use llfree_c.Trees.Search.{TreeChange, trees_change_at, trees_change}

-- The entry while it is offline.
abbrev off : Tree → Tree
off t = record t { free = 0 }

tree_change-offline :
    (t : Tree) (class min : ℕ)
    → t.reserved ≡ false
    → ((class ≡ class_none) ⊎ (class ≡ t.class))
    → min ≤ t.free
    → tree_change t class min class_none offline 0 ≡ some (off t)
unfolding tree_change
tree_change-offline t class min open_tree fits enough = ground (arith, open_tree, fits, enough)

tree_change-online :
    (t : Tree) (class : ℕ)
    → IsTree t
    → t.reserved ≡ false
    → ((class ≡ class_none) ⊎ (class ≡ t.class))
    → tree_change (off t) class 0 class_none online t.free ≡ some t
unfolding tree_change
tree_change-online t class valid open_tree fits =
    let field : t.free % 2 ^ 28 ≡ t.free = omega (arith, valid.bounded) in
    ground (arith, open_tree, fits, field)

-- A change of the tree with a given number.
change_id :
    (s : Trees) (i class min : ℕ) (change : TreeChange) (fetch : ℕ → Option ℕ) (r : Trees × Outcome)
    → i < s.len
    → min ≤ 4096
    → trees_change_at (record { id = some i; class = class; free = min }) change fetch i s ≡ some r
    → trees_change s (record { id = some i; class = class; free = min }) change fetch ≡ some r
unfolding trees_change
change_id s i class min change fetch r lt few ran = ground (arith, lt, few, ran)

-- For a valid entry of the tree array that is not reserved, of the class asked for, if any, and
-- with at least as many free frames as are asked for, and a callback that counts exactly its free
-- frames, `trees_change` that takes the tree of that number offline, without a change of its class,
-- succeeds. In the array after it, neither `trees_steal` nor `trees_reserve_or_steal` of one frame
-- or more succeeds on the tree, whatever class and policy, and `trees_change` that brings it online
-- again, with no free frames asked for, succeeds and gives the array of before.
pub trees_change-trees_change :
    (s : Trees) (i class min n k : ℕ) (t : Tree) (policy : PolicyFn) (fetch : ℕ → Option ℕ)
    → get_elem? s.entries i ≡ some t
    → i < s.len
    → IsTree t
    → t.reserved ≡ false
    → ((class ≡ class_none) ⊎ (class ≡ t.class))
    → min ≤ t.free
    → 0 < n
    → fetch i ≡ some t.free
    → (s' : Trees) × (trees_change s
          (record { id = some i; class = class; free = min })
          (record { class = class_none; operation = offline })
          fetch
        ≡ some (s', llfree_ok 0 0))
      × (trees_steal s' i n k policy ≡ some none)
      × (trees_reserve_or_steal s' i n policy k ≡ some none)
      × (trees_change s'
            (record { id = some i; class = class; free = 0 })
            (record { class = class_none; operation = online })
            fetch
          ≡ some (s, llfree_ok 0 0))
unfolding trees_change_at trees_steal trees_reserve_or_steal trees_load tree_steal
    tree_reserve_or_steal
trees_change-trees_change s i class min n k t policy fetch at lt valid open_tree fits enough
      some_frames fetched =
    let s' = put_entry s i (off t) in
    let bounded = valid.bounded in
    let now : get_elem? s'.entries i ≡ some (off t) =
      get_elem?-set_self s.entries i (off t) (lt_of_get_elem? s.entries i t at) in
    let back : put_entry s' i t ≡ s =
      ap (λ (xs : List Tree). record s { entries = xs })
        (set-set s.entries i (off t) t ∙ set_of_get_elem? s.entries i t at) in
    let word : min % 2 ^ 32 ≡ min = omega (arith, enough, bounded) in
    let none_asked : 0 % 2 ^ 32 ≡ 0 = omega arith in
    let inside : ltb i s.len ≡ true = ltb-true _ _ lt in
    let short : ltb 0 n ≡ true = ltb-true _ _ some_frames in
    let down = tree_change-offline t class min open_tree fits enough in
    let up = tree_change-online t class valid open_tree fits in
    (
      s',
      change_id s i class min _ fetch (s', llfree_ok 0 0) lt (omega (arith, enough, bounded))
          (rw (at, word, down) refl),
      cc (inside, now, short),
      cc (inside, now, short, open_tree),
      change_id s' i class 0 _ fetch (s, llfree_ok 0 0) lt (omega arith)
          (rw (now, fetched, up, back) refl),
    )
