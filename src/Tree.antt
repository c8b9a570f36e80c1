-- ===== src/Tree.antt =====
-- src/tree.h and src/tree.c: one entry of the tree array, and the updates of it. The policy is
-- the parameter of the C functions. The outer `none` is a failed assertion; where a function may
-- return false, that is a `none` inside, or the only one if it asserts nothing.
pub mod Laws
use llfree_c.Base.{
  ℕ, ◌+◌, ◌-◌, ◌%◌, ◌^◌, Bool, true, false, not, ◌&&◌, ◌||◌, Option, none, some, ltb, leb, ◌==◌,
  if◌then◌else◌, assert, ◌>>=◌, ◌>>◌,
}
use llfree_c.Types.{
  tree_size, max_classes, class_none, PolicyType, matched, steal, demote, invalid, PolicyFn,
  TreeOperation, keep, online, offline,
}
use llfree_c.Utils.{u32}

-- `tree_t`: the class has 3 bits and the counter 28.
pub record Tree : Type 0 where
  pub reserved : Bool
  pub class : ℕ
  pub free : ℕ

-- What a store into the field `class` or `free` keeps.
abbrev pub class_bits : ℕ → ℕ
class_bits c = c % 2 ^ 3

abbrev pub free_bits : ℕ → ℕ
free_bits n = n % 2 ^ 28

unfoldable pub tree_new : Bool → ℕ → ℕ → Option Tree
tree_new reserved class free =
    assert (leb free tree_size)
    >> (assert (ltb class max_classes)
        >> some (record { reserved = reserved; class = class; free = free }))

abbrev pub is_invalid_policy : PolicyType → Bool
is_invalid_policy invalid = true
is_invalid_policy _ = false

abbrev pub is_demote : PolicyType → Bool
is_demote demote = true
is_demote _ = false

unfoldable pub tree_put : Tree → ℕ → PolicyFn → ℕ → Option Tree
tree_put t frames policy default_class =
    let free = u32 (t.free + frames) in
    let kept : Tree = record t { free = free_bits free } in
    assert (leb free tree_size)
    >> some (
        if free == tree_size
          && not (is_invalid_policy (policy t.class default_class (free_bits free)).type)
        then record kept { class = class_bits default_class }
        else kept)

-- The entry after it, and what is left in `*class`.
unfoldable pub tree_steal : Tree → ℕ → ℕ → PolicyFn → Option (Tree × ℕ)
tree_steal t frames class policy =
    if ltb t.free frames then none else elim ((policy class t.class t.free).type) [
      | matched ↦ some (record t { free = t.free - frames; class = class_bits class }, class)
      | demote ↦ some (record t { free = t.free - frames; class = class_bits class }, class)
      | steal ↦ some (record t { free = t.free - frames }, t.class)
      | invalid ↦ none
    ]

-- The entry after it, `*out_reserved` and `*out_class`.
unfoldable pub tree_reserve_or_steal : Tree → ℕ → PolicyFn → ℕ → Option (Tree × Bool × ℕ)
tree_reserve_or_steal t frames policy class =
    if t.reserved || ltb t.free frames then none else elim ((policy class t.class t.free).type) [
      | matched ↦ some (record { reserved = true; free = 0; class = class_bits class }, true, class)
      | demote ↦ some (record { reserved = true; free = 0; class = class_bits class }, true, class)
      | steal ↦ some (record t { free = t.free - frames }, false, t.class)
      | invalid ↦ none
    ]

unfoldable pub tree_unreserve_add : Tree → ℕ → ℕ → PolicyFn → ℕ → Option (Option Tree)
tree_unreserve_add t frames class policy default_class =
    if not t.reserved
    then some none
    else (tree_put
          (record {
            reserved = false;
            class =
                if is_demote (policy class t.class frames).type then class_bits class else t.class;
            free = t.free;
          })
          frames policy default_class
        >>= λ t'. some (some t'))

unfoldable pub tree_sync_steal : Tree → ℕ → Option Tree
tree_sync_steal t min = if t.reserved && ltb min t.free then some (record t { free = 0 }) else none

unfoldable pub tree_change : Tree → ℕ → ℕ → ℕ → TreeOperation → ℕ → Option Tree
tree_change t match_class min_free change_class operation online_free =
    if t.reserved
      || (not (match_class == class_none) && not (t.class == match_class))
      || ltb t.free min_free
    then none
    else (let changed : Tree = record t {
      class = if change_class == class_none then t.class else class_bits change_class;
    } in
        elim operation [
          | keep ↦ some changed
          | offline ↦ some (record changed { free = 0 })
          | online ↦
              if t.free == 0 then some (record changed { free = free_bits online_free }) else none
        ])
