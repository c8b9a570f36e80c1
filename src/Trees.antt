-- ===== src/Trees.antt =====
-- src/trees.h and src/trees.c: the tree array. `atom_update` of an entry is one step.
pub mod Search
pub mod Rounds
pub mod Change
pub mod Stats
use llfree_c.Base.{
  ℕ, zero, suc, ◌+◌, ◌-◌, ◌*◌, ◌%◌, ◌^◌, Bool, true, false, not, Option, none, some, List, [], ◌∷◌,
  ltb, leb, ◌==◌, if◌then◌else◌, assert, ◌>>=◌, ◌>>◌, get_elem?, set, replicate,
}
use llfree_c.Types.{tree_size, PolicyFn, max_classes}
use llfree_c.Utils.{div_ceil, align_up, frame_from_tree}
use llfree_c.Tree.{
  Tree, tree_new, tree_put, tree_steal, tree_reserve_or_steal, tree_unreserve_add, tree_sync_steal,
}
use llfree_c.Lower.Stats.{flag}

-- `trees_t`.
pub record Trees : Type 0 where
  pub entries : List Tree
  pub len : ℕ
  pub default_class : ℕ

unfoldable pub trees_metadata_size : ℕ → Option ℕ
trees_metadata_size frames = align_up (4 * div_ceil frames tree_size) 64

abbrev pub put_entry : Trees → ℕ → Tree → Trees
put_entry s i t = record s { entries = set s.entries i t }

-- The loop of `trees_init`: `left` rounds to go, from `i` on.
unfoldable pub init_entries : (ℕ → Option ℕ) → ℕ → ℕ → Trees → Option Trees
init_entries init_fn zero i s = some s
init_entries init_fn (suc left) i s = do
  free ← init_fn (frame_from_tree i)
  t ← tree_new false s.default_class free
  _ ← get_elem? s.entries i
  init_entries init_fn left (i + 1) (put_entry s i t)

-- The buffer is what it holds; `none` for the callback leaves the entries as they are.
unfoldable pub trees_init : ℕ → List Tree → Option (ℕ → Option ℕ) → ℕ → Option Trees
trees_init frames buffer init_fn default_class =
    let len = div_ceil frames tree_size in
    let s : Trees = record { entries = buffer; len = len; default_class = default_class } in
    elim init_fn [ none ↦ some s | some f ↦ init_entries f len 0 s ]

-- The assertion on the index, and the load.
unfoldable pub trees_load : Trees → ℕ → Option Tree
trees_load s i = assert (ltb i s.len) >> get_elem? s.entries i

-- The inner `none` stands for `return false`.
unfoldable pub trees_steal : Trees → ℕ → ℕ → ℕ → PolicyFn → Option (Option (Trees × ℕ))
trees_steal s i frames class policy = do
  t ← trees_load s i
  some (elim (tree_steal t frames class policy) [
    | some (t', class') ↦ some (put_entry s i t', class')
    | none ↦ none
  ])

unfoldable pub trees_put : Trees → ℕ → ℕ → PolicyFn → Option Trees
trees_put s i frames policy = do
  t ← trees_load s i
  t' ← tree_put t frames policy s.default_class
  some (put_entry s i t')

-- `*out_reserved`, `*out_free` and `*out_class`.
pub record Taken : Type 0 where
  pub reserved : Bool
  pub free : ℕ
  pub class : ℕ

unfoldable pub trees_reserve_or_steal :
    Trees → ℕ → ℕ → PolicyFn → ℕ → Option (Option (Trees × Taken))
trees_reserve_or_steal s i frames policy class = do
  t ← trees_load s i
  some (elim (tree_reserve_or_steal t frames policy class) [
    | some (t', reserved, class') ↦
        some (put_entry s i t', record { reserved = reserved; free = t.free; class = class' })
    | none ↦ none
  ])

unfoldable pub trees_unreserve : Trees → ℕ → ℕ → ℕ → PolicyFn → Option Trees
trees_unreserve s i free class policy = do
  t ← trees_load s i
  done ← tree_unreserve_add t free class policy s.default_class
  some (elim done [ some t' ↦ put_entry s i t' | none ↦ s ])

-- The number is `*out_stolen`.
unfoldable pub trees_sync_steal : Trees → ℕ → ℕ → Option (Option (Trees × ℕ))
trees_sync_steal s i min = do
  t ← trees_load s i
  some (elim (tree_sync_steal t min) [ some t' ↦ some (put_entry s i t', t.free) | none ↦ none ])

-- `ll_class_stats_t` and `ll_tree_stats_t`.
pub record ClassStats : Type 0 where
  pub free_frames : ℕ
  pub alloc_frames : ℕ

pub record TreeStats : Type 0 where
  pub free_frames : ℕ
  pub free_trees : ℕ
  pub classes : List ClassStats

-- `LLFREE_TREE_SIZE - t.free` on `unsigned`.
abbrev pub tree_alloc : ℕ → ℕ
tree_alloc free = (tree_size + 2 ^ 32 - free) % 2 ^ 32

-- The loop of `trees_stats`: the entries from `i` on, `left` of them.
unfoldable pub add_trees : ℕ → ℕ → List Tree → TreeStats → Option TreeStats
add_trees zero i entries s = some s
add_trees (suc left) i entries s = do
  t ← get_elem? entries i
  c ← get_elem? s.classes t.class
  add_trees left (i + 1) entries (record {
    free_frames = s.free_frames + t.free;
    free_trees = s.free_trees + flag (t.free == tree_size);
    classes = set s.classes t.class (record {
      free_frames = c.free_frames + t.free;
      alloc_frames = c.alloc_frames + tree_alloc t.free;
    });
  })

unfoldable pub trees_stats : Trees → Option TreeStats
trees_stats s = add_trees s.len 0 s.entries (record {
  free_frames = 0;
  free_trees = 0;
  classes = replicate max_classes (record { free_frames = 0; alloc_frames = 0 });
})

-- `*class`, `*free` and `*reserved`.
unfoldable pub trees_stats_at : Trees → ℕ → Option (ℕ × ℕ × Bool)
trees_stats_at s idx = do
  assert (ltb idx s.len)
  t ← get_elem? s.entries idx
  some (t.class, t.free, t.reserved)
