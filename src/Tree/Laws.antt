-- ===== src/Tree/Laws.antt =====
-- The updates of a tree entry in src/tree.c, for every policy.
use llfree_c.Base.{
  ℕ, ◌+◌, ◌-◌, ◌%◌, ◌^◌, ◌≤◌, ◌<◌, ◌≡◌, ◌⊎◌, refl, arith, Bool, true, false, not, ◌&&◌, none, some,
  leb-true, if◌then◌else◌, ◌==◌,
}
use llfree_c.Types.{class_none, invalid, PolicyFn, TreeOperation, keep, online, offline}
use llfree_c.Tree.{
  Tree, is_invalid_policy, is_demote, tree_put, tree_steal, tree_reserve_or_steal,
  tree_unreserve_add, tree_change,
}

-- What every entry satisfies: the counter is one of a tree, and the class one of the eight.
pub record IsTree (t : Tree) : Type 0 where
  pub bounded : t.free ≤ 4096
  pub classed : t.class < 8

-- The class after frames came back.
abbrev pub class_after : Tree → ℕ → PolicyFn → ℕ → ℕ
class_after t free policy default_class =
    if free == 4096 && not (is_invalid_policy (policy t.class default_class free).type)
    then default_class
    else t.class

-- For a valid tree entry, a default class below 8 and frames that fit the tree, `tree_put` does not
-- fail its assertion and leaves a valid entry: the frames are added, the reservation is kept, and
-- the class becomes the default one exactly when the tree is then entirely free and the policy
-- allows it.
pub tree_put_lem :
    (t : Tree) (frames : ℕ) (policy : PolicyFn) (default_class : ℕ)
    → IsTree t
    → default_class < 8
    → t.free + frames ≤ 4096
    → (t' : Tree) × (tree_put t frames policy default_class ≡ some t')
      × IsTree t'
      × (t'.free ≡ t.free + frames)
      × (t'.reserved ≡ t.reserved)
      × (t'.class ≡ class_after t (t.free + frames) policy default_class)
unfolding tree_put
tree_put_lem t frames policy default_class v d h = (
  record {
    reserved = t.reserved;
    class = class_after t (t.free + frames) policy default_class;
    free = t.free + frames;
  },
  exact,
  ground arith,
  refl,
  refl,
  refl,
)
  where
    exact :
        tree_put t frames policy default_class
        ≡ some (record {
          reserved = t.reserved;
          class = class_after t (t.free + frames) policy default_class;
          free = t.free + frames;
        })
    exact =
        let word : (t.free + frames) % 2 ^ 32 ≡ t.free + frames = omega arith in
        let bits : (t.free + frames) % 2 ^ 28 ≡ t.free + frames = omega arith in
        let class_fits : default_class % 2 ^ 3 ≡ default_class = omega arith in
        rw (word, bits, class_fits, leb-true _ _ h) (ground arith)

-- More frames than fit stop the program.
tree_put-none :
    (t : Tree) (frames : ℕ) (policy : PolicyFn) (default_class : ℕ)
    → IsTree t
    → frames < 2 ^ 31
    → 4096 < t.free + frames
    → tree_put t frames policy default_class ≡ none
unfolding tree_put
tree_put-none t frames policy default_class v f h = ground arith

-- When `tree_steal` succeeds on a valid tree entry for a class below 8, the entry stays valid,
-- exactly the frames asked for are off its counter, its reservation is kept and its class is the
-- one reported.
pub tree_steal_lem :
    (t t' : Tree) (frames class class' : ℕ) (policy : PolicyFn)
    → IsTree t
    → class < 8
    → tree_steal t frames class policy ≡ some (t', class')
    → IsTree t' × (t'.free + frames ≡ t.free) × (t'.reserved ≡ t.reserved) × (t'.class ≡ class')
unfolding tree_steal
tree_steal_lem t t' frames class class' policy v c h = ground arith

pub tree_steal-none :
    (t : Tree) (frames class : ℕ) (policy : PolicyFn)
    → tree_steal t frames class policy ≡ none
    → (t.free < frames) ⊎ ((policy class t.class t.free).type ≡ invalid)
unfolding tree_steal
tree_steal-none t frames class policy h = ground arith

-- When `tree_reserve_or_steal` succeeds on a valid tree entry for a class below 8, the entry was
-- not reserved and had the frames; after it the entry is valid and has the reported class, and
-- either it is reserved and its counter is 0, or it is not and exactly the frames asked for are off
-- its counter.
pub tree_reserve_or_steal_lem :
    (t t' : Tree) (frames class class' : ℕ) (policy : PolicyFn) (reserved : Bool)
    → IsTree t
    → class < 8
    → tree_reserve_or_steal t frames policy class ≡ some (t', reserved, class')
    → IsTree t'
      × (t.reserved ≡ false)
      × (frames ≤ t.free)
      × (t'.class ≡ class')
      × (t'.reserved ≡ reserved)
      × (t'.free ≡ (if reserved then 0 else t.free - frames))
unfolding tree_reserve_or_steal
tree_reserve_or_steal_lem t t' frames class class' policy reserved v c h = ground arith

-- `tree_unreserve_add` on an entry that is reserved.
pub tree_unreserve_add_lem :
    (t : Tree) (frames class : ℕ) (policy : PolicyFn) (default_class : ℕ)
    → IsTree t
    → class < 8
    → default_class < 8
    → t.reserved ≡ true
    → t.free + frames ≤ 4096
    → (t' : Tree) × (tree_unreserve_add t frames class policy default_class ≡ some (some t'))
      × IsTree t'
      × (t'.free ≡ t.free + frames)
      × (t'.reserved ≡ false)
unfolding tree_unreserve_add
tree_unreserve_add_lem t frames class policy default_class v c d r h =
    let kept : Tree = record {
      reserved = false;
      class = if is_demote (policy class t.class frames).type then class % 2 ^ 3 else t.class;
      free = t.free;
    } in
    let valid : IsTree kept = record { bounded = v.bounded; classed = ground arith } in
    let (t', done, still, free, reserved, _) =
      tree_put_lem kept frames policy default_class valid d h in
    (t', rw (r, done) refl, still, free, reserved)

-- When a valid tree entry is reserved and its frames are given back untouched under the class that
-- the reservation reported, with classes below 8, then giving back succeeds, and the entry is
-- valid, has all its frames again and is not reserved.
pub reserve-unreserve :
    (t t' : Tree) (frames class class' : ℕ) (policy : PolicyFn) (default_class : ℕ)
    → IsTree t
    → class < 8
    → default_class < 8
    → tree_reserve_or_steal t frames policy class ≡ some (t', true, class')
    → (u : Tree) × (tree_unreserve_add t' t.free class' policy default_class ≡ some (some u))
      × IsTree u
      × (u.free ≡ t.free)
      × (u.reserved ≡ false)
reserve-unreserve t t' frames class class' policy default_class v c d taken =
    let (valid, _, _, kept_class, reserved, free) =
      tree_reserve_or_steal_lem t t' frames class class' policy true v c taken in
    let (u, done, still, total, open_again) =
      tree_unreserve_add_lem t' t.free class' policy default_class valid
        (omega (arith, valid.classed)) d reserved (omega (arith, v.bounded)) in
    (u, done, still, omega arith, open_again)

-- What a request asks of the class and of the counter.
abbrev pub Matches : Tree → ℕ → ℕ → TreeOperation → Type 0
Matches t match_class min_free operation =
    (t.reserved ≡ false)
    × ((match_class ≡ class_none) ⊎ (match_class ≡ t.class))
    × (min_free ≤ t.free)
    × ((operation ≡ online) → t.free ≡ 0)

abbrev pub counter_after : Tree → TreeOperation → ℕ → ℕ
counter_after t keep online_free = t.free
counter_after t offline online_free = 0
counter_after t online online_free = online_free

abbrev pub class_changed : Tree → ℕ → ℕ
class_changed t change_class = if change_class == class_none then t.class else change_class

-- When `tree_change` succeeds on a valid tree entry, with a new class below 8 or none and at most
-- 4096 frames to bring online, the entry matched the request; after it the entry is valid and not
-- reserved, its class is the one asked for, if any, and its counter is kept, 0 or the frames
-- brought online, as the operation says.
pub tree_change_lem :
    (t t' : Tree) (match_class min_free change_class : ℕ) (operation : TreeOperation)
    (online_free : ℕ)
    → IsTree t
    → online_free ≤ 4096
    → ((change_class < 8) ⊎ (change_class ≡ class_none))
    → tree_change t match_class min_free change_class operation online_free ≡ some t'
    → IsTree t'
      × Matches t match_class min_free operation
      × (t'.reserved ≡ false)
      × (t'.class ≡ class_changed t change_class)
      × (t'.free ≡ counter_after t operation online_free)
unfolding tree_change
tree_change_lem t t' match_class min_free change_class keep online_free v o c h = ground arith
tree_change_lem t t' match_class min_free change_class offline online_free v o c h = ground arith
tree_change_lem t t' match_class min_free change_class online online_free v o c h = ground arith
