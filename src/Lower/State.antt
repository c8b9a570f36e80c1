-- ===== src/Lower/State.antt =====
-- The state of src/lower.c. `children` holds the entries of all trees in a row: entry `i % 8` of
-- `children[i / 8]` is element `i`.
use llfree_c.Base.{ℕ, ◌+◌, ◌*◌, Option, some, List, ltb, assert, get_elem?, set, ◌>>=◌, ◌>>◌}
use llfree_c.Types.{child_size, tree_children}
use llfree_c.Utils.{div_ceil, align_up}
use llfree_c.Child.{Child}
use llfree_c.Bitfield.{Bitfield}

-- `lower_t`.
pub record Lower : Type 0 where
  pub frames : ℕ
  pub fields : List Bitfield
  pub children : List Child

unfoldable pub child_count : Lower → ℕ
child_count l = div_ceil l.frames child_size

unfoldable pub children_count : Lower → ℕ
unfolding child_count
children_count l = div_ceil (child_count l) tree_children

unfoldable pub get_child : Lower → ℕ → Option Child
get_child l i = do
  bound ← align_up (child_count l) tree_children
  assert (ltb i bound)
  get_elem? l.children i

abbrev pub put_child : Lower → ℕ → Child → Lower
put_child l i c = record l { children = set l.children i c }

abbrev pub put_field : Lower → ℕ → Bitfield → Lower
put_field l i f = record l { fields = set l.fields i f }

-- The sizes of `bitfield_t` and `children_t`, in bytes.
abbrev pub bitfield_bytes : ℕ
bitfield_bytes = 64

abbrev pub children_bytes : ℕ
children_bytes = 64

unfoldable pub lower_metadata_size : ℕ → Option ℕ
lower_metadata_size frames =
    let children = div_ceil frames child_size in
    let trees = div_ceil children tree_children in
    do
      size_bitfields ← align_up (children * bitfield_bytes) children_bytes
      size_children ← align_up (trees * children_bytes) children_bytes
      some (size_bitfields + size_children)
