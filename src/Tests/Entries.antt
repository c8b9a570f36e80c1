-- ===== src/Tests/Entries.antt =====
-- src/tree.c and src/trees.c at concrete inputs.
use llfree_c.Base.{ℕ, [], ◌∷◌, Option, ◌≡◌, inl, inr, refl, arith, true, false, some, none}
use llfree_c.Types.{PolicyFn, matched, llfree_ok, class_none, online, offline}
use llfree_c.Tree.{Tree, tree_steal, tree_reserve_or_steal, tree_unreserve_add, tree_change}
use llfree_c.Tree.Laws.{
  IsTree, Matches, class_changed, counter_after, reserve-unreserve, tree_change_lem,
}
use llfree_c.Trees.{Trees, trees_steal, trees_reserve_or_steal}
use llfree_c.Trees.Search.{trees_change}
use llfree_c.Trees.Change.{trees_change-trees_change}

-- A policy that lets every class use every tree.
abbrev always_match : PolicyFn
always_match a b free = record { type = matched; priority = 1 }

abbrev half : Tree
half = record { reserved = false; class = 1; free = 2048 }

half-IsTree : IsTree half
half-IsTree = record { bounded = omega arith; classed = omega arith }

-- The tree after a steal of 48 frames for class 2.
abbrev stolen : Tree
stolen = record { reserved = false; class = 2; free = 2000 }

stolen-run : tree_steal half 48 2 always_match ≡ some (stolen, 2)
unfolding tree_steal
stolen-run = refl

-- The tree after a reservation for class 2.
abbrev held : Tree
held = record { reserved = true; class = 2; free = 0 }

held-run : tree_reserve_or_steal half 48 always_match 2 ≡ some (held, true, 2)
unfolding tree_reserve_or_steal
held-run = refl

reserve-unreserve_example :
    (u : Tree) × (tree_unreserve_add held 2048 2 always_match 0 ≡ some (some u))
    × IsTree u
    × (u.free ≡ 2048)
    × (u.reserved ≡ false)
reserve-unreserve_example =
    reserve-unreserve half held 48 2 2 always_match 0 half-IsTree (omega arith) (omega arith)
      held-run

-- The tree taken offline.
abbrev gone : Tree
gone = record { reserved = false; class = 3; free = 0 }

gone-run : tree_change half 1 100 3 offline 0 ≡ some gone
unfolding tree_change
gone-run = refl

tree_change_lem_example :
    IsTree gone
    × Matches half 1 100 offline
    × (false ≡ false)
    × (3 ≡ class_changed half 3)
    × (0 ≡ counter_after half offline 0)
tree_change_lem_example =
    tree_change_lem half gone 1 100 3 offline 0 half-IsTree (omega arith) (inl (omega arith))
      gone-run

-- The tree in an array.
abbrev half_array : Trees
half_array = record { entries = half ∷ []; len = 1; default_class = 0 }

abbrev counter_of_half : ℕ → Option ℕ
counter_of_half i = some 2048

trees_change-trees_change_example :
    (s' : Trees) × (trees_change half_array
        (record { id = some 0; class = 1; free = 100 })
        (record { class = class_none; operation = offline })
        counter_of_half
      ≡ some (s', llfree_ok 0 0))
    × (trees_steal s' 0 16 1 always_match ≡ some none)
    × (trees_reserve_or_steal s' 0 16 always_match 1 ≡ some none)
    × (trees_change s'
          (record { id = some 0; class = 1; free = 0 })
          (record { class = class_none; operation = online })
          counter_of_half
        ≡ some (half_array, llfree_ok 0 0))
trees_change-trees_change_example =
    trees_change-trees_change half_array 0 1 100 16 1 half always_match counter_of_half refl
      (omega arith) half-IsTree refl (inr refl) (omega arith) (omega arith) refl
