-- ===== src/Lower/Init.antt =====
-- `lower_clear`, `lower_recover` and `lower_init` of src/lower.c.
pub mod Fields
pub mod Loops
pub mod Heal
pub mod Recovery
pub mod Start
use llfree_c.Base.{
  ℕ, zero, suc, ◌+◌, ◌-◌, ◌*◌, Bool, true, false, Option, some, List, [], ◌∷◌, ltb, leb, ◌==◌,
  if◌then◌else◌, assert, ◌>>=◌, get_elem?, replicate, ◌>>◌,
}
use llfree_c.Types.{
  child_size, atomic_size, tree_children, uint64_max, Outcome, llfree_err, ok, init,
}
use llfree_c.Utils.{u16, shl64, div_ceil, align_up}
use llfree_c.Child.{Child, child_new}
use llfree_c.Bitfield.{Bitfield, field_n, field_init, field_count_ones}
use llfree_c.Lower.State.{
  Lower, child_count, get_child, put_child, put_field, bitfield_bytes, children_bytes,
  lower_metadata_size,
}

abbrev pub zero_field : Bitfield
zero_field = replicate field_n 0

-- The rows that `init_field` writes, for `n` rows of which `free` bits are to be clear.
unfoldable pub init_rows : ℕ → ℕ → Bitfield
init_rows zero free = []
init_rows (suc n) free =
    (if leb atomic_size free then 0 else if ltb 0 free then shl64 uint64_max free else uint64_max)
    ∷ init_rows n (free - atomic_size)

unfoldable pub init_field : ℕ → Bitfield
init_field free = init_rows field_n free

-- One round of the first loop of `lower_clear`.
unfoldable pub clear_child : Bool → ℕ → Lower → Option Lower
clear_child free_all i l =
    let left = l.frames - i * child_size in
    let f = if ltb left child_size then left else child_size in
    let free = if free_all then f else 0 in
    do
      _ ← get_child l i
      c ← child_new (u16 free) (free == 0)
      _ ← get_elem? l.fields i
      some (put_field (put_child l i c) i (if free == 0 then zero_field else init_field free))

unfoldable pub clear_children : ℕ → Bool → ℕ → Lower → Option Lower
clear_children zero free_all i l = some l
clear_children (suc left) free_all i l =
    clear_child free_all i l >>= λ l'. clear_children left free_all (i + 1) l'

-- The second loop of `lower_clear`, over the entries that no frame belongs to.
unfoldable pub clear_leftover : ℕ → ℕ → Lower → Option Lower
clear_leftover zero i l = some l
clear_leftover (suc left) i l = do
  _ ← get_child l i
  c ← child_new 0 true
  clear_leftover left (i + 1) (put_child l i c)

unfoldable pub lower_clear : Bool → Lower → Option Lower
lower_clear free_all l = do
  let child_c = child_count l
  cleared ← clear_children child_c free_all 0 l
  bound ← align_up child_c tree_children
  clear_leftover (bound - child_c) child_c cleared

-- One round of `lower_recover`.
unfoldable pub recover_child : ℕ → Lower → Option Lower
recover_child i l = do
  c ← get_child l i
  field ← get_elem? l.fields i
  if c.huge
      then (child_new 0 true >>= λ c'. some (put_field (put_child l i c') i (field_init field)))
      else (field_count_ones field >>= λ ones.
          child_new (u16 (child_size - ones)) false >>= λ c'. some (put_child l i c'))

unfoldable pub recover_from : ℕ → ℕ → Lower → Option Lower
recover_from zero i l = some l
recover_from (suc left) i l = recover_child i l >>= λ l'. recover_from left (i + 1) l'

unfoldable pub lower_recover : Lower → Option Lower
lower_recover l = recover_from (child_count l) 0 l

abbrev pub init_free : ℕ
init_free = 0

abbrev pub init_alloc : ℕ
init_alloc = 1

abbrev pub init_recover : ℕ
init_recover = 2

abbrev pub init_none : ℕ
init_none = 4

abbrev pub init_max : ℕ
init_max = 5

-- The buffer `primary` is what it holds, as `fields` and `children`.
unfoldable pub lower_init : List Bitfield → List Child → ℕ → ℕ → Option (Lower × Outcome)
lower_init fields children frames mode =
    let l : Lower = record { frames = frames; fields = fields; children = children } in
    let child_c = child_count l in
    let tree_count = div_ceil child_c tree_children in
    do
      bitfield_size ← align_up (bitfield_bytes * child_c) children_bytes
      meta ← lower_metadata_size frames
      assert (leb (bitfield_size + children_bytes * tree_count) meta)
      if mode == init_free
          then (lower_clear true l >>= λ l'. some (l', llfree_err ok))
          else if mode == init_alloc
          then (lower_clear false l >>= λ l'. some (l', llfree_err ok))
          else if mode == init_none
          then some (l, llfree_err ok)
          else if mode == init_recover
          then (lower_recover l >>= λ l'. some (l', llfree_err ok))
          else some (l, llfree_err init)
