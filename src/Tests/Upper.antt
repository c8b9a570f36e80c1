-- ===== src/Tests/Upper.antt =====
-- src/trees.c and src/llfree.c at concrete inputs.
use llfree_c.Base.{
  take, ℕ, zero, suc, ◌<◌, ◌≡◌, arith, true, false, some, [], ◌∷◌, ◌==◌, get_elem?, total, ◌*◌,
  none, replicate, List, get_elem?-replicate, ap, ◌∙◌, ◌≤◌, refl,
}
use mathlib.Core.Logic.{◌↔◌}
use llfree_c.Tree.{Tree}
use llfree_c.Tree.Laws.{IsTree}
use llfree_c.Lower.Stats.{flag}
use llfree_c.Trees.{Trees, TreeStats, trees_stats}
use llfree_c.Trees.Stats.{free_of, used_of, trees_stats_lem}
use llfree_c.Utils.{tree_from_row}
use llfree_c.Local.{
  Reserved, Locals, make_result, get_slot, put_slot, ll_reserved_dec, ll_local_get, ll_local_put,
}
use llfree_c.Local.Laws.{IsLocals, ll_local_put-ll_local_get}
use llfree_c.Llfree.Meta.{Meta, MetaSize, check_meta}
use llfree_c.Llfree.Placement.{Placed, check_meta-eq}

-- A tree of each of two classes, and what stands behind the end of the array.
abbrev two_trees : Trees
two_trees = record {
  entries =
      record { reserved = false; class = 0; free = 4096 }
      ∷ record { reserved = true; class = 1; free = 100 }
      ∷ record { reserved = false; class = 9; free = 5000 }
      ∷ [];
  len = 2;
  default_class = 0;
}

two_trees-IsTree : (i : ℕ) (t : Tree) → i < 2 → get_elem? two_trees.entries i ≡ some t → IsTree t
two_trees-IsTree zero t lt at = ground (arith, at)
two_trees-IsTree (suc zero) t lt at = ground (arith, at)
two_trees-IsTree (suc (suc i)) t lt at = absurd (omega arith)

trees_stats_lem_example :
    (r : TreeStats) × (trees_stats two_trees ≡ some r)
    × (r.free_frames ≡ total (λ t. t.free) (take 2 two_trees.entries))
    × (r.free_trees ≡ total (λ t. flag (t.free == 4096)) (take 2 two_trees.entries))
    × ((k : ℕ)
        → k < 8
        → get_elem? r.classes k
          ≡ some (record {
            free_frames = total (free_of k) (take 2 two_trees.entries);
            alloc_frames = total (used_of k) (take 2 two_trees.entries);
          }))
trees_stats_lem_example = trees_stats_lem two_trees (omega arith) two_trees-IsTree

abbrev three_buffers : Meta
three_buffers = record { local = 4096; trees = 8192; lower = 64 }

abbrev some_sizes : MetaSize
some_sizes = record { llfree = 128; local = 384; trees = 64; lower = 1024 }

check_meta-eq_example : check_meta three_buffers some_sizes ≡ true ↔ Placed three_buffers some_sizes
check_meta-eq_example =
    check_meta-eq three_buffers some_sizes (omega arith) (omega arith) (omega arith)

-- One slot of class 0, with a reserved tree.
abbrev tree_three : Reserved
tree_three = record { present = true; free = 100; start_row = 3 * 64 }

abbrev tree_less : Reserved
tree_less = record { present = true; free = 84; start_row = 3 * 64 }

abbrev slots_with : Reserved → Locals
slots_with r = record { num_classes = 1; classes = some (r ∷ []) ∷ replicate 7 none }

slots_with-IsLocals : IsLocals (slots_with tree_three)
slots_with-IsLocals zero i slots r at here =
    let same : tree_three ∷ [] ≡ slots = ground (arith, at) in
    one i (ap (λ (s : List Reserved). get_elem? s i) same ∙ here)
  where
    one : (i : ℕ) → get_elem? (tree_three ∷ []) i ≡ some r → r.free ≤ 4096
    one zero e = ground (arith, e)
    one (suc i) e = ground (arith, e)
slots_with-IsLocals (suc c) i slots r at here =
    let gone : some slots ≡ none = get_elem?-replicate 7 c none (some slots) at in
    ground (arith, gone)

ll_local_get-run :
    ll_local_get (slots_with tree_three) 0 0 none 16
    ≡ some (slots_with tree_less, make_result true 0 tree_three)
unfolding ll_local_get get_slot ll_reserved_dec put_slot
ll_local_get-run = refl

ll_local_put-ll_local_get_example :
    ll_local_put (slots_with tree_less) 0 0 (tree_from_row (3 * 64)) 16
    ≡ some (slots_with tree_three, true)
ll_local_put-ll_local_get_example =
    ll_local_put-ll_local_get (slots_with tree_three) (slots_with tree_less) 0 0 16 none
      (make_result true 0 tree_three) slots_with-IsLocals ll_local_get-run refl
