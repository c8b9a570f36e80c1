-- ===== src/Llfree/Manage.antt =====
-- `llfree_init`, `llfree_put`, `llfree_change_tree`, `llfree_drain` and the statistics of
-- src/llfree.c.
use llfree_c.Base.{
  ℕ, zero, suc, ◌+◌, ◌*◌, ◌^◌, ◌||◌, Option, none, some, List, ltb, leb, ◌==◌, if◌then◌else◌,
  assert, ◌>>=◌, ◌>>◌, get_elem?, length,
}
use llfree_c.Types.{
  tree_children, tree_order, max_classes, Outcome, llfree_ok, llfree_err, llfree_is_ok, init,
  argument, Request, Classing,
}
use llfree_c.Utils.{u32, u8, tree_from_frame, tree_from_row, frame_from_tree}
use llfree_c.Child.{Child}
use llfree_c.Bitfield.{Bitfield}
use llfree_c.Lower.State.{Lower}
use llfree_c.Lower.Init.{lower_init, init_none, init_max}
use llfree_c.Lower.Put.{lower_put}
use llfree_c.Lower.Stats.{Stats, lower_stats, lower_stats_at}
use llfree_c.Tree.{Tree}
use llfree_c.Trees.{trees_init}
use llfree_c.Trees.Search.{TreeMatch, TreeChange, trees_change}
use llfree_c.Local.{ll_local_init, ll_local_put, ll_local_drain, ll_local_class_locals}
use llfree_c.Llfree.{Llfree, put_back, unreserve, slots_of}
use llfree_c.Llfree.Meta.{Meta, llfree_metadata_size, check_meta}
use llfree_c.Llfree.Get.{validate_request}

-- The sum of the counters of `left` children from `i` on.
unfoldable pub sum_free : List Child → ℕ → ℕ → ℕ → Option ℕ
sum_free children zero i sum = some sum
sum_free children (suc left) i sum = do
  c ← get_elem? children i
  sum_free children left (i + 1) (u32 (sum + c.free))

unfoldable pub init_tree_cb : Lower → ℕ → Option ℕ
init_tree_cb l tree_start_frame =
    sum_free l.children tree_children (tree_from_frame tree_start_frame * tree_children) 0

abbrev pub min_pages : ℕ
min_pages = 2 ^ 9

abbrev pub max_pages : ℕ
max_pages = 2 ^ 52

-- The buffers of the lower allocator and of the trees are what they hold, and `meta` has the
-- addresses of all of them. The inner `none` is a state that is not initialised.
unfoldable pub llfree_init :
    ℕ
    → ℕ
    → Meta
    → List Bitfield
    → List Child
    → List Tree
    → Classing
    → Option (Option Llfree × Outcome)
llfree_init frames mode meta fields children trees classing =
    let num_classes = length classing.classes in
    assert (leb 1 num_classes)
    >> (assert (leb num_classes max_classes)
        >> (llfree_metadata_size classing frames >>= λ sizes.
            assert (check_meta meta sizes)
            >> (if leb init_max mode
                then some (none, llfree_err init)
                else if ltb frames min_pages || ltb max_pages frames
                then some (none, llfree_err init)
                else (do
                  (lower, res) ← lower_init fields children frames mode
                  if llfree_is_ok res
                      then (do
                        t ←
                            trees_init frames trees
                              (if mode == init_none then none else some (init_tree_cb lower))
                              classing.default_class
                        l ← ll_local_init classing
                        some (
                          some (record {
                            lower = lower;
                            local = l;
                            trees = t;
                            policy = classing.policy;
                            num_classes = u8 num_classes;
                          }),
                          llfree_ok 0 0,
                        ))
                      else some (none, res)))))

-- The end of `llfree_put`: the counter of the own slot, or that of the tree.
unfoldable pub count_put : Llfree → ℕ → Request → Option (Llfree × Outcome)
count_put self frame request =
    let tree_idx = tree_from_frame frame in
    let frames = u32 (2 ^ request.order) in
    elim request.local [
      | none ↦ put_back self tree_idx frames >>= λ s. some (s, llfree_ok 0 0)
      | some index ↦ do
        (l, done) ← ll_local_put self.local request.class index tree_idx frames
        let s : Llfree = record self { local = l }
        if done
            then some (s, llfree_ok 0 0)
            else (put_back s tree_idx frames >>= λ s'. some (s', llfree_ok 0 0))
    ]

unfoldable pub llfree_put : Llfree → ℕ → Request → Option (Llfree × Outcome)
llfree_put self frame request = do
  valid ← validate_request self request (some frame)
  if valid
      then (do
        (l, res) ← lower_put self.lower frame request.order
        let s : Llfree = record self { lower = l }
        if llfree_is_ok res then count_put s frame request else some (s, res))
      else some (self, llfree_err argument)

unfoldable pub llfree_stats_at : Llfree → ℕ → ℕ → Option Stats
llfree_stats_at self frame order = lower_stats_at self.lower frame order

unfoldable pub llfree_stats : Llfree → Option Stats
llfree_stats self = lower_stats self.lower

unfoldable pub llfree_change_fetch_free : Llfree → ℕ → Option ℕ
llfree_change_fetch_free self idx =
    llfree_stats_at self (frame_from_tree idx) tree_order >>= λ s. some (u32 (Stats.free_frames s))

unfoldable pub llfree_change_tree : Llfree → TreeMatch → TreeChange → Option (Llfree × Outcome)
llfree_change_tree self matcher change = do
  (t, res) ← trees_change self.trees matcher change (llfree_change_fetch_free self)
  some (record self { trees = t }, res)

-- One round of the inner loop of `llfree_drain`.
unfoldable pub drain_slot : ℕ → ℕ → Llfree → Option Llfree
drain_slot class i self = do
  (l, old) ← ll_local_drain self.local class i
  let s : Llfree = record self { local = l }
  if old.present then unreserve s (tree_from_row old.start_row) old.free old.class else some s

unfoldable pub drain_slots : ℕ → ℕ → ℕ → Llfree → Option Llfree
drain_slots zero class i self = some self
drain_slots (suc left) class i self =
    drain_slot class i self >>= λ s. drain_slots left class (i + 1) s

unfoldable pub drain_classes : ℕ → ℕ → Llfree → Option Llfree
drain_classes zero class self = some self
drain_classes (suc left) class self = do
  locals ← ll_local_class_locals self.local class
  s ← drain_slots (slots_of locals) class 0 self
  drain_classes left (class + 1) s

unfoldable pub llfree_drain : Llfree → Option Llfree
llfree_drain self = drain_classes max_classes 0 self

unfoldable pub llfree_frames : Llfree → ℕ
llfree_frames self = self.lower.frames
