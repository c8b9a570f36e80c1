-- ===== src/Llfree/Placement.antt =====
-- `check_meta` of src/llfree.c against the addresses of the buffers.
use mathlib.Core.Logic.{◌↔◌}
use llfree_c.Base.{ℕ, refl, ◌+◌, ◌%◌, ◌<◌, ◌≡◌, arith, Bool, true, false, ◌&&◌, leb, ltb}
use llfree_c.Llfree.Meta.{Meta, MetaSize, apart, check_meta}

-- The address `x` is in the buffer of `size` bytes at `a`.
abbrev pub in_buffer : ℕ → ℕ → ℕ → Bool
in_buffer a size x = leb a x && ltb x (a + size)

-- Two buffers without a common address.
abbrev pub Disjoint : ℕ → ℕ → ℕ → ℕ → Type 0
Disjoint a size_a b size_b = (x : ℕ) → (in_buffer a size_a x && in_buffer b size_b x) ≡ false

-- The buffers are aligned to cache lines, and no two of them have an address in common.
pub record Placed (meta : Meta) (sizes : MetaSize) : Type 0 where
  pub local_line : meta.local % 64 ≡ 0
  pub trees_line : meta.trees % 64 ≡ 0
  pub lower_line : meta.lower % 64 ≡ 0
  pub local_lower : Disjoint meta.local sizes.local meta.lower sizes.lower
  pub local_trees : Disjoint meta.local sizes.local meta.trees sizes.trees
  pub lower_trees : Disjoint meta.lower sizes.lower meta.trees sizes.trees

apart-Disjoint : (a s b t : ℕ) → apart a s b t ≡ true → Disjoint a s b t
apart-Disjoint a s b t e x = ground (arith, e)

apart_of_Disjoint : (a s b t : ℕ) → 0 < s → 0 < t → Disjoint a s b t → apart a s b t ≡ true
apart_of_Disjoint a s b t hs ht d = ground (arith, d a, d b)

-- For buffers that are not empty, `check_meta` accepts exactly those that start at a cache line and
-- of which no two have an address in common.
pub check_meta-eq :
    (meta : Meta) (sizes : MetaSize)
    → 0 < sizes.local
    → 0 < sizes.trees
    → 0 < sizes.lower
    → check_meta meta sizes ≡ true ↔ Placed meta sizes
unfolding check_meta
check_meta-eq meta sizes h1 h2 h3 = (
  λ e. record {
    local_line = ground (arith, e);
    trees_line = ground (arith, e);
    lower_line = ground (arith, e);
    local_lower = apart-Disjoint _ _ _ _ (ground (arith, e));
    local_trees = apart-Disjoint _ _ _ _ (ground (arith, e));
    lower_trees = apart-Disjoint _ _ _ _ (ground (arith, e));
  },
  λ p.
      let first = apart_of_Disjoint _ _ _ _ h1 h3 p.local_lower in
      let second = apart_of_Disjoint _ _ _ _ h1 h2 p.local_trees in
      let third = apart_of_Disjoint _ _ _ _ h3 h2 p.lower_trees in
      rw (p.local_line, p.trees_line, p.lower_line, first, second, third) refl,
)
