-- ===== src/Utils.antt =====
-- src/utils.h: words of 64 bits, alignment, the circular loop, and the conversions of ids.
pub mod Words
pub mod Wrap
pub mod Align
pub mod Powers
pub mod Offsetted
use Prim.Native.Nat.{bit_and}
use llfree_c.Base.{
  ℕ, zero, suc, ◌+◌, ◌-◌, ◌*◌, ◌/◌, ◌%◌, ◌^◌, Bool, true, ◌&&◌, Option, some, List, [], ◌∷◌, ltb,
  ◌==◌, if◌then◌else◌, assert, ◌>>=◌, ◌>>◌, leb,
}
use llfree_c.Types.{uint64_max, atomic_order, child_order, tree_order}

-- Conversions to `uint64_t`, `uint16_t` and `uint8_t`.
abbrev pub u64 : ℕ → ℕ
u64 n = n % 2 ^ 64

abbrev pub u32 : ℕ → ℕ
u32 n = n % 2 ^ 32

abbrev pub u16 : ℕ → ℕ
u16 n = n % 2 ^ 16

abbrev pub u8 : ℕ → ℕ
u8 n = n % 2 ^ 8

-- `~v` and `v << k` on `uint64_t`.
abbrev pub not64 : ℕ → ℕ
not64 v = uint64_max - v

abbrev pub shl64 : ℕ → ℕ → ℕ
shl64 v k = u64 (v * 2 ^ k)

-- `a - b` on `uint64_t`; the modulus is added first since `-` stops at 0.
abbrev pub sub64 : ℕ → ℕ → ℕ
sub64 a b = (a + 2 ^ 64 - b) % 2 ^ 64

-- The number of zero bits below the lowest one, of `width` bits.
unfoldable pub ctz : ℕ → ℕ → ℕ
ctz zero v = 0
ctz (suc width) v = let above = suc (ctz width (v / 2)) in if v % 2 == 1 then 0 else above

unfoldable pub trailing_zeros : ℕ → ℕ
trailing_zeros v = if v == 0 then 64 else ctz 64 v

-- The number of zero bits above the highest one, of `width` bits.
unfoldable pub clz : ℕ → ℕ → ℕ
clz zero v = 0
clz (suc width) v = let below = suc (clz width v) in if ltb v (2 ^ width) then below else 0

unfoldable pub leading_zeros : ℕ → ℕ
leading_zeros v = if v == 0 then 64 else clz 64 v

unfoldable pub log2 : ℕ → Option ℕ
log2 v = assert (ltb 0 v) >> some (63 - leading_zeros v)

unfoldable pub next_pow2 : ℕ → Option ℕ
next_pow2 v = if leb v 1 then some 1 else (log2 (v - 1) >>= λ k. some (shl64 1 (k + 1)))

-- The number of ones among `width` bits.
unfoldable pub popcount : ℕ → ℕ → ℕ
popcount zero v = 0
popcount (suc width) v = v % 2 + popcount width (v / 2)

unfoldable pub count_ones : ℕ → ℕ
count_ones v = popcount 64 v

abbrev pub div_ceil : ℕ → ℕ → ℕ
div_ceil a b = (a + b - 1) / b

-- The assertion says that `align` is a power of two.
unfoldable pub align_down : ℕ → ℕ → Option ℕ
align_down val align =
    let zeros = trailing_zeros align in
    assert (ltb zeros 64 && (2 ^ zeros == align)) >> some (bit_and val (not64 (align - 1)))

unfoldable pub align_up : ℕ → ℕ → Option ℕ
align_up val align = align_down (u64 (val + align - 1)) align

-- The values of `current_i` in `for_offsetted`: `left` rounds from round `i` on.
unfoldable pub offsetted_from : ℕ → ℕ → ℕ → ℕ → ℕ → ℕ → List ℕ
offsetted_from base offset len zero i current = []
offsetted_from base offset len (suc left) i current =
    current ∷ offsetted_from base offset len left (i + 1) (base + (i + 1 + offset) % len)

unfoldable pub offsetted : ℕ → ℕ → List ℕ
offsetted start len =
    let offset = start % len in offsetted_from (start - offset) offset len len 0 start

abbrev pub tree_from_frame : ℕ → ℕ
tree_from_frame f = f / 2 ^ tree_order

abbrev pub frame_from_tree : ℕ → ℕ
frame_from_tree t = shl64 t tree_order

abbrev pub child_from_frame : ℕ → ℕ
child_from_frame f = f / 2 ^ child_order

abbrev pub frame_from_child : ℕ → ℕ
frame_from_child c = shl64 c child_order

abbrev pub row_from_frame : ℕ → ℕ
row_from_frame f = f / 2 ^ atomic_order

abbrev pub frame_from_row : ℕ → ℕ
frame_from_row r = shl64 r atomic_order

abbrev pub tree_from_row : ℕ → ℕ
tree_from_row r = tree_from_frame (frame_from_row r)

abbrev pub row_from_tree : ℕ → ℕ
row_from_tree t = row_from_frame (frame_from_tree t)
