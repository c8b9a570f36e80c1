-- ===== src/Llfree.antt =====
-- src/llfree_inner.h and src/llfree.c: the upper allocator over the lower one, the tree array and
-- the local slots. Prints are left out.
pub mod Get
pub mod Manage
pub mod Meta
pub mod Placement
pub mod Upper
use llfree_c.Base.{
  ℕ, zero, suc, ◌+◌, ◌-◌, ◌*◌, ◌/◌, ◌%◌, ◌^◌, Bool, true, false, not, ◌&&◌, ◌||◌, Option, none,
  some, ltb, leb, ◌==◌, if◌then◌else◌, assert, ◌>>=◌, ◌>>◌,
}
use llfree_c.Types.{
  tree_size, tree_order, uint8_max, Outcome, llfree_ok, llfree_err, llfree_is_ok, ok, memory,
  argument, is_memory, Request, Policy, PolicyFn, PolicyType, matched, demote, invalid,
}
use llfree_c.Utils.{
  u32, frame_from_tree, tree_from_frame, tree_from_row, frame_from_row, row_from_frame, shl64,
}
use llfree_c.Lower.State.{Lower}
use llfree_c.Lower.Get.{lower_get}
use llfree_c.Trees.{
  Trees, Taken, trees_put, trees_steal, trees_unreserve, trees_reserve_or_steal, trees_sync_steal,
}
use llfree_c.Local.{
  Locals, LocalResult, ll_local_class_locals, ll_local_swap, ll_local_get, ll_local_put,
  ll_local_set_start,
}
use llfree_c.Local.Steal.{Demoted, ll_local_steal, ll_local_demote_any, or_zero}

-- `llfree_t`.
pub record Llfree : Type 0 where
  pub lower : Lower
  pub local : Locals
  pub trees : Trees
  pub policy : PolicyFn
  pub num_classes : ℕ

abbrev pub invalid_policy : Policy
invalid_policy = record { type = invalid; priority = 0 }

abbrev pub perfect_policy : Policy
perfect_policy = record { type = matched; priority = uint8_max }

-- The three rate functions, of `struct rate_args` (`class`, `frames`, `policy`).
unfoldable pub rate_reserve_near_tree : ℕ → ℕ → PolicyFn → ℕ → ℕ → Policy
rate_reserve_near_tree class frames policy tree_class free =
    let p = policy class tree_class free in
    if ltb free frames then invalid_policy else elim (p.type) [
      | matched ↦ p
      | demote ↦ if free == tree_size then perfect_policy else invalid_policy
      | _ ↦ invalid_policy
    ]

unfoldable pub rate_reserve_global_tree : ℕ → ℕ → PolicyFn → ℕ → ℕ → Policy
rate_reserve_global_tree class frames policy tree_class free =
    let p = policy class tree_class free in
    if ltb free frames then invalid_policy else elim (p.type) [
      | matched ↦ perfect_policy
      | demote ↦ if free == tree_size then perfect_policy else p
      | _ ↦ p
    ]

unfoldable pub rate_global_tree : ℕ → ℕ → PolicyFn → ℕ → ℕ → Policy
rate_global_tree class frames policy tree_class free =
    if ltb free frames then invalid_policy else policy class tree_class free

-- Frames given back to the tree array, as `trees_put` and `trees_unreserve` do it.
unfoldable pub put_back : Llfree → ℕ → ℕ → Option Llfree
put_back self idx frames = do
  t ← trees_put self.trees idx frames self.policy
  some (record self { trees = t })

unfoldable pub unreserve : Llfree → ℕ → ℕ → ℕ → Option Llfree
unreserve self idx free class = do
  t ← trees_unreserve self.trees idx free class self.policy
  some (record self { trees = t })

unfoldable pub lower_get_of : Llfree → ℕ → ℕ → Option ℕ → Option (Llfree × Outcome)
lower_get_of self start_frame order frame = do
  (l, res) ← lower_get self.lower start_frame order frame
  some (record self { lower = l }, res)

unfoldable pub swap_reserved : Llfree → ℕ → ℕ → ℕ → ℕ → Option Llfree
swap_reserved self class index new_idx new_free = do
  (l, old) ← ll_local_swap self.local class index new_idx new_free
  assert old.success
  let self' : Llfree = record self { local = l }
  if old.present
      then unreserve self' (tree_from_row old.start_row) old.free old.class
      else some self'

-- What `reserve_or_steal_cb` does on a failure.
unfoldable pub give_back : Llfree → ℕ → ℕ → Taken → Option Llfree
give_back self idx frames taken =
    if taken.reserved then unreserve self idx taken.free taken.class else put_back self idx frames

-- The number of slots of a class, 0 where it has none.
abbrev pub slots_of : Option ℕ → ℕ
slots_of none = 0
slots_of (some n) = n

-- The part of `reserve_or_steal_cb` after the tree was taken.
unfoldable pub get_from_taken : ℕ → ℕ → ℕ → Llfree → Taken → Option (Llfree × Outcome)
get_from_taken order index idx self taken =
    let frames = u32 (2 ^ order) in
    do
      class_len ← ll_local_class_locals self.local taken.class
      if slots_of class_len == 0
          then (give_back self idx frames taken >>= λ s. some (s, llfree_err memory))
          else (do
            (s, res) ← lower_get_of self (frame_from_tree idx) order none
            if llfree_is_ok res
                then (do
                  s' ←
                      if taken.reserved
                      then swap_reserved s taken.class (index % slots_of class_len) idx
                          (taken.free - frames)
                      else some s
                  some (s', record res { class = taken.class }))
                else (give_back s idx frames taken >>= λ s'. some (s', res)))

unfoldable pub reserve_or_steal_cb : ℕ → ℕ → ℕ → ℕ → Llfree → Option (Llfree × Outcome)
reserve_or_steal_cb order class index idx self = do
  done ← trees_reserve_or_steal self.trees idx (u32 (2 ^ order)) self.policy class
  elim done [
    | none ↦ some (self, llfree_err memory)
    | some (t, taken) ↦ get_from_taken order index idx (record self { trees = t }) taken
  ]

unfoldable pub steal_cb : ℕ → ℕ → ℕ → Llfree → Option (Llfree × Outcome)
steal_cb order class idx self = do
  done ← trees_steal self.trees idx (u32 (2 ^ order)) class self.policy
  elim done [
    | none ↦ some (self, llfree_err memory)
    | some (t, class') ↦ do
      (s, res) ← lower_get_of (record self { trees = t }) (frame_from_tree idx) order none
      if llfree_is_ok res
          then some (s, record res { class = class' })
          else (put_back s idx (u32 (2 ^ order)) >>= λ s'. some (s', res))
  ]

unfoldable pub sync_with_global : Llfree → ℕ → ℕ → ℕ → LocalResult → Option (Llfree × Bool)
sync_with_global self class index needed old =
    let tree_idx = tree_from_row old.start_row in
    assert old.present
    >> (if leb needed old.free then some (self, false) else (do
      stolen ← trees_sync_steal self.trees tree_idx (needed - old.free)
      elim stolen [
        | none ↦ some (self, false)
        | some (t, n) ↦ do
          (l, done) ← ll_local_put self.local class index tree_idx n
          let s : Llfree = record self { trees = t; local = l }
          if done then some (s, true) else (put_back s tree_idx n >>= λ s'. some (s', false))
      ]))

abbrev pub tree_of : Option ℕ → Option ℕ
tree_of none = none
tree_of (some f) = some (tree_from_frame f)
