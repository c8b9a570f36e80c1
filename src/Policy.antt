-- ===== src/Policy.antt =====
-- The two example policies of include/llfree.h, and the requests that go with them.
use llfree_c.Base.{ℕ, ◌/◌, ◌%◌, Bool, some, ltb, leb, if◌then◌else◌, [], ◌∷◌}
use llfree_c.Types.{
  tree_size, uint8_max, child_order, PolicyFn, matched, steal, demote, Request, Classing,
}

unfoldable pub llfree_simple_policy : PolicyFn
llfree_simple_policy requested target free =
    if ltb target requested
    then record { type = steal; priority = 0 }
    else if ltb requested target
    then record { type = demote; priority = 0 }
    else if leb (tree_size / 2) free
    then record { type = matched; priority = 1 }
    else if leb (tree_size / 64) free
    then record { type = matched; priority = uint8_max }
    else record { type = matched; priority = 0 }

unfoldable pub llfree_classing_simple : ℕ → Classing
llfree_classing_simple cores = record {
  classes = record { class = 0; count = cores } ∷ record { class = 1; count = cores } ∷ [];
  default_class = 1;
  policy = llfree_simple_policy;
}

unfoldable pub llfree_simple_request : ℕ → ℕ → ℕ → Request
llfree_simple_request cores order core =
    if leb child_order order
    then record { order = order; class = 1; local = some (core % cores) }
    else record { order = order; class = 0; local = some (core % cores) }

unfoldable pub llfree_movable_policy : PolicyFn
llfree_movable_policy requested target free =
    if ltb target requested
    then record { type = steal; priority = 0 }
    else if ltb requested target
    then record { type = demote; priority = 0 }
    else if leb (tree_size / 2) free
    then record { type = matched; priority = 1 }
    else if leb (tree_size / 64) free
    then record { type = matched; priority = uint8_max }
    else record { type = matched; priority = 2 }

unfoldable pub llfree_classing_movable : ℕ → Classing
llfree_classing_movable cores = record {
  classes =
      record { class = 0; count = cores }
      ∷ record { class = 1; count = cores }
      ∷ record { class = 2; count = cores }
      ∷ [];
  default_class = 2;
  policy = llfree_movable_policy;
}

unfoldable pub llfree_movable_request : ℕ → ℕ → ℕ → Bool → Request
llfree_movable_request cores order core movable =
    if leb child_order order
    then record { order = order; class = 2; local = some (core % cores) }
    else if movable
    then record { order = order; class = 1; local = some (core % cores) }
    else record { order = order; class = 0; local = some (core % cores) }
