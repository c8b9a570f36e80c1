-- ===== src/Llfree/Meta.antt =====
-- The sizes and the placement of the metadata in src/llfree.c, and its statistics and validation.
use llfree_c.Base.{
  ℕ, zero, suc, ◌+◌, ◌%◌, Bool, false, not, ◌&&◌, ◌||◌, Option, some, List, [], ◌∷◌, ltb, leb, ◌==◌,
  if◌then◌else◌, assert, ◌>>=◌, ◌>>◌,
}
use llfree_c.Types.{tree_size, tree_order, Classing}
use llfree_c.Utils.{u32, tree_from_row, frame_from_row, frame_from_tree}
use llfree_c.Lower.State.{lower_metadata_size}
use llfree_c.Lower.Stats.{Stats, lower_stats, lower_stats_at}
use llfree_c.Trees.{trees_metadata_size, trees_load, ClassStats, TreeStats, trees_stats}
use llfree_c.Local.{LocalResult, ll_local_size, ll_local_mem_size}
use llfree_c.Local.Stats.{ll_local_stats, ll_local_validate}
use llfree_c.Llfree.{Llfree}

-- `llfree_meta_size_t`.
pub record MetaSize : Type 0 where
  pub llfree : ℕ
  pub local : ℕ
  pub trees : ℕ
  pub lower : ℕ

-- `llfree_meta_t`, by its addresses.
pub record Meta : Type 0 where
  pub local : ℕ
  pub trees : ℕ
  pub lower : ℕ

-- The size of `llfree_t` in bytes.
abbrev pub llfree_bytes : ℕ
llfree_bytes = 128

unfoldable pub llfree_metadata_size : Classing → ℕ → Option MetaSize
llfree_metadata_size classing frames = do
  trees ← trees_metadata_size frames
  lower ← lower_metadata_size frames
  some (record {
    llfree = llfree_bytes;
    local = ll_local_size classing;
    trees = trees;
    lower = lower;
  })

unfoldable pub llfree_metadata_size_of : Llfree → Option MetaSize
llfree_metadata_size_of self = do
  trees ← trees_metadata_size self.lower.frames
  local ← ll_local_mem_size self.local
  lower ← lower_metadata_size self.lower.frames
  some (record { llfree = llfree_bytes; local = local; trees = trees; lower = lower })

-- One buffer ends before the other begins.
abbrev pub apart : ℕ → ℕ → ℕ → ℕ → Bool
apart a size_a b size_b = leb (a + size_a) b || leb (b + size_b) a

unfoldable pub check_meta : Meta → MetaSize → Bool
check_meta meta sizes =
    if not (meta.local % 64 == 0) || not (meta.trees % 64 == 0) || not (meta.lower % 64 == 0)
    then false
    else apart meta.local sizes.local meta.lower sizes.lower
      && apart meta.local sizes.local meta.trees sizes.trees
      && apart meta.lower sizes.lower meta.trees sizes.trees

-- The loop of `llfree_tree_stats` over the classes.
unfoldable pub add_class_stats : List ClassStats → List ClassStats → List ClassStats
add_class_stats (a ∷ rest) (b ∷ rest') =
    record {
      free_frames = a.free_frames + b.free_frames;
      alloc_frames = a.alloc_frames + b.alloc_frames;
    }
    ∷ add_class_stats rest rest'
add_class_stats _ _ = []

unfoldable pub llfree_tree_stats : Llfree → Option TreeStats
llfree_tree_stats self = do
  stats ← ll_local_stats self.local
  tree_stats ← trees_stats self.trees
  some (record {
    free_frames = stats.free_frames + tree_stats.free_frames;
    free_trees = stats.free_trees + tree_stats.free_trees;
    classes = add_class_stats stats.classes tree_stats.classes;
  })

unfoldable pub validate_tree : Llfree → LocalResult → Option (Unit {0})
validate_tree self res = do
  assert res.present
  let tree_idx = tree_from_row res.start_row
  assert (ltb tree_idx self.trees.len)
  tree ← trees_load self.trees tree_idx
  assert tree.reserved
  assert (ltb tree.class self.num_classes)
  let free = u32 (tree.free + res.free)
  assert (leb free tree_size)
  tree_stats ← lower_stats_at self.lower (frame_from_row res.start_row) tree_order
  assert (free == Stats.free_frames tree_stats)

-- One round of the loop of `llfree_validate`.
unfoldable pub validate_entry : Llfree → ℕ → Option (Unit {0})
validate_entry self tree_idx = do
  tree ← trees_load self.trees tree_idx
  assert (leb tree.free tree_size)
  assert (ltb tree.class self.num_classes)
  if tree.reserved then some tt else (do
    tree_stats ← lower_stats_at self.lower (frame_from_tree tree_idx) tree_order
    assert (Stats.free_frames tree_stats == tree.free))

unfoldable pub validate_entries : Llfree → ℕ → ℕ → Option (Unit {0})
validate_entries self zero i = some tt
validate_entries self (suc left) i = validate_entry self i >> validate_entries self left (i + 1)

unfoldable pub llfree_validate : Llfree → Option (Unit {0})
llfree_validate self = do
  stats ← lower_stats self.lower
  fast_stats ← llfree_tree_stats self
  assert (Stats.free_frames stats == TreeStats.free_frames fast_stats)
  _ ← validate_entries self self.trees.len 0
  ll_local_validate self.local (validate_tree self)
