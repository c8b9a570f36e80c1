-- ===== src/Lower/Stats.antt =====
-- `lower_stats` and `lower_stats_at` of src/lower.c.
pub mod Frame
pub mod Total
use llfree_c.Base.{
  ℕ, zero, suc, ◌+◌, ◌*◌, ◌%◌, Bool, true, false, Option, some, List, ltb, leb, ◌==◌, if◌then◌else◌,
  get_elem?, ◌>>=◌,
}
use llfree_c.Types.{child_size, child_order, tree_children, tree_order, tree_size}
use llfree_c.Utils.{align_down, child_from_frame}
use llfree_c.Child.{Child}
use llfree_c.Bitfield.{field_is_free}
use llfree_c.Lower.State.{Lower, children_count, get_child}

-- `ll_stats_t`.
pub record Stats : Type 0 where
  pub free_frames : ℕ
  pub free_huge : ℕ
  pub free_trees : ℕ

abbrev pub no_stats : Stats
no_stats = record { free_frames = 0; free_huge = 0; free_trees = 0 }

-- A comparison that is added up.
abbrev pub flag : Bool → ℕ
flag true = 1
flag false = 0

-- The inner loop of `lower_stats`: the entries from `i` on, `left` of them. The number is the
-- `free_frames` of the tree.
unfoldable pub sum_children : List Child → ℕ → ℕ → ℕ → Stats → Option (ℕ × Stats)
sum_children children zero i free_frames s = some (free_frames, s)
sum_children children (suc left) i free_frames s = do
  c ← get_elem? children i
  sum_children children left (i + 1) (free_frames + c.free) (record s {
    free_frames = s.free_frames + c.free;
    free_huge = s.free_huge + flag (c.free == child_size);
  })

-- The outer loop: the trees from `i` on, `left` of them.
unfoldable pub sum_trees : List Child → ℕ → ℕ → Stats → Option Stats
sum_trees children zero i s = some s
sum_trees children (suc left) i s = do
  (free_frames, t) ← sum_children children tree_children (i * tree_children) 0 s
  sum_trees children left (i + 1)
      (record t { free_trees = t.free_trees + flag (free_frames == tree_size) })

unfoldable pub lower_stats : Lower → Option Stats
lower_stats l = sum_trees l.children (children_count l) 0 no_stats

-- The case of one frame.
unfoldable pub frame_stats : Lower → ℕ → Option Stats
frame_stats l frame =
    let i = child_from_frame frame in
    do
      c ← get_child l i
      if c.free == child_size
          then some (record no_stats { free_frames = 1 })
          else if ltb 0 c.free
          then (do
            field ← get_elem? l.fields i
            free ← field_is_free field (frame % child_size)
            some (record no_stats { free_frames = flag free }))
          else some no_stats

-- The case of one huge frame.
unfoldable pub huge_stats : Lower → ℕ → Option Stats
huge_stats l frame = do
  c ← get_child l (child_from_frame frame)
  some (record { free_frames = c.free; free_huge = flag (c.free == child_size); free_trees = 0 })

-- The loop of the case of one tree, over the entries from `i` on, `left` of them.
unfoldable pub tree_entries : Lower → ℕ → ℕ → Stats → Option Stats
tree_entries l zero i s = some s
tree_entries l (suc left) i s = do
  c ← get_child l i
  tree_entries l left (i + 1) (record s {
    free_frames = s.free_frames + c.free;
    free_huge = s.free_huge + flag (c.free == child_size);
  })

unfoldable pub tree_stats : Lower → ℕ → Option Stats
tree_stats l frame = do
  start ← align_down (child_from_frame frame) tree_children
  s ← tree_entries l tree_children start no_stats
  some (record s { free_trees = flag (s.free_frames == tree_size) })

unfoldable pub lower_stats_at : Lower → ℕ → ℕ → Option Stats
lower_stats_at l frame order =
    if leb l.frames frame
    then some no_stats
    else if order == 0
    then frame_stats l frame
    else if order == child_order
    then huge_stats l frame
    else if order == tree_order
    then tree_stats l frame
    else some no_stats
