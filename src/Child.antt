-- ===== src/Child.antt =====
-- src/child.h and src/child.c: the entry of a child, a counter of free frames and the huge flag.
pub mod Laws
use llfree_c.Base.{
  ℕ, ◌+◌, ◌-◌, ◌%◌, ◌^◌, Bool, true, false, not, ◌&&◌, ◌||◌, Option, none, some, ltb, leb, ◌==◌,
  if◌then◌else◌, assert, ◌>>◌,
}
use llfree_c.Types.{child_size}
use llfree_c.Utils.{u16}

-- `child_t`: the counter has 15 bits.
pub record Child : Type 0 where
  pub free : ℕ
  pub huge : Bool

unfoldable pub child_new : ℕ → Bool → Option Child
child_new free huge =
    assert (leb free child_size)
    >> (assert (not huge || free == 0) >> some (record { free = free; huge = huge }))

-- `none` stands for `return false`, here and below.
unfoldable pub child_inc : Child → ℕ → Option Child
child_inc c order =
    let num_pages = u16 (2 ^ order) in
    if c.huge || ltb child_size (u16 (c.free + num_pages))
    then none
    else some (record c { free = (c.free + num_pages) % 2 ^ 15 })

unfoldable pub child_dec : Child → ℕ → Option Child
child_dec c order =
    let num_pages = u16 (2 ^ order) in
    if not c.huge && leb num_pages c.free
    then some (record c { free = c.free - num_pages })
    else none

abbrev pub bool_eq : Bool → Bool → Bool
bool_eq true b = b
bool_eq false b = not b

-- The comparison of a compare-and-exchange on an entry.
abbrev pub child_eq : Child → Child → Bool
child_eq a b = a.free == b.free && bool_eq a.huge b.huge
