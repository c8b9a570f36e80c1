-- ===== src/Local/Stats.antt =====
-- The history of frees, the statistics and the validation of src/local.c.
use llfree_c.Base.{
  ℕ, zero, suc, ◌+◌, Bool, true, false, Option, none, some, List, [], ◌∷◌, leb, ◌==◌, if◌then◌else◌,
  assert, ◌>>=◌, ◌>>◌, get_elem?, set, replicate,
}
use llfree_c.Types.{tree_size, max_classes}
use llfree_c.Utils.{tree_from_row}
use llfree_c.Lower.Stats.{flag}
use llfree_c.Trees.{TreeStats}
use llfree_c.Local.{Reserved, Locals, LocalResult, make_result}

-- LLFREE_ENABLE_FREE_RESERVE is false: no tree is reserved because of its frees.
unfoldable pub ll_local_free_inc : Locals → ℕ → ℕ → ℕ → Bool
ll_local_free_inc l class index tree_idx = false

-- The slots of a class, none where it is not configured.
abbrev pub slots_in : Option (List Reserved) → List Reserved
slots_in none = []
slots_in (some slots) = slots

-- The inner loop of `ll_local_stats`, over the slots of class `t` that are left.
unfoldable pub add_slots : ℕ → List Reserved → TreeStats → Option TreeStats
add_slots t [] s = some s
add_slots t (res ∷ rest) s =
    if res.present
    then (get_elem? s.classes t >>= λ c. add_slots t rest (record {
      free_frames = s.free_frames + res.free;
      free_trees = s.free_trees + flag (res.free == tree_size);
      classes = set s.classes t (record c { free_frames = c.free_frames + res.free });
    }))
    else add_slots t rest s

-- The outer loop: the classes from `t` on, `left` of them.
unfoldable pub add_classes : Locals → ℕ → ℕ → TreeStats → Option TreeStats
add_classes l zero t s = some s
add_classes l (suc left) t s = do
  slots ← get_elem? l.classes t
  s' ← add_slots t (slots_in slots) s
  add_classes l left (t + 1) s'

abbrev pub no_tree_stats : TreeStats
no_tree_stats = record {
  free_frames = 0;
  free_trees = 0;
  classes = replicate max_classes (record { free_frames = 0; alloc_frames = 0 });
}

unfoldable pub ll_local_stats : Locals → Option TreeStats
ll_local_stats l = add_classes l max_classes 0 no_tree_stats

-- The inner loop of `ll_local_stats_at`: the first slot that has the tree.
unfoldable pub find_slot : ℕ → ℕ → List Reserved → Option LocalResult
find_slot tree_idx t [] = none
find_slot tree_idx t (res ∷ rest) =
    let later = find_slot tree_idx t rest in
    if res.present
    then (if tree_from_row res.start_row == tree_idx then some (make_result true t res) else later)
    else later

unfoldable pub find_in_classes : Locals → ℕ → ℕ → ℕ → Option LocalResult
find_in_classes l tree_idx zero t =
    some (record { success = false; present = false; class = 0; free = 0; start_row = 0 })
find_in_classes l tree_idx (suc left) t = do
  slots ← get_elem? l.classes t
  elim (find_slot tree_idx t (slots_in slots)) [
    | some res ↦ some res
    | none ↦ find_in_classes l tree_idx left (t + 1)
  ]

unfoldable pub ll_local_stats_at : Locals → ℕ → Option LocalResult
ll_local_stats_at l tree_idx = find_in_classes l tree_idx max_classes 0

-- The inner loop of `ll_local_validate`, with the callback for the slots that are taken.
unfoldable pub validate_slots :
    (LocalResult → Option (Unit {0})) → ℕ → List Reserved → Option (Unit {0})
validate_slots validate_tree t [] = some tt
validate_slots validate_tree t (res ∷ rest) = do
  assert (leb res.free tree_size)
  _ ← if res.present then validate_tree (make_result true t res) else some tt
  validate_slots validate_tree t rest

unfoldable pub validate_classes :
    (LocalResult → Option (Unit {0})) → Locals → ℕ → ℕ → Option (Unit {0})
validate_classes validate_tree l zero t = some tt
validate_classes validate_tree l (suc left) t = do
  slots ← get_elem? l.classes t
  _ ← validate_slots validate_tree t (slots_in slots)
  validate_classes validate_tree l left (t + 1)

unfoldable pub ll_local_validate : Locals → (LocalResult → Option (Unit {0})) → Option (Unit {0})
ll_local_validate l validate_tree = validate_classes validate_tree l max_classes 0
