-- ===== src/Bitfield.antt =====
-- src/bitfield.c: 512 bits in eight rows of 64, one bit for each frame of a child.
-- `atom_update` and `atom_cmp_exchange` are taken as one step each.
pub mod FirstZeros
pub mod Undo
pub mod Slots
pub mod Field
pub mod SetNext
pub mod Masks
pub mod Bits
pub mod Frames
pub mod Claims
pub mod Clear
pub mod Mark
pub mod Toggle
pub mod RoundTrip
use Prim.Native.Nat.{bit_and, bit_or}
use llfree_c.Base.{
  ℕ, zero, suc, ◌+◌, ◌-◌, ◌*◌, ◌/◌, ◌%◌, ◌^◌, Bool, true, false, ◌&&◌, Option, none, some, List, [],
  ◌∷◌, ltb, leb, ◌==◌, if◌then◌else◌, assert, ◌>>=◌, ◌>>◌, get_elem?, set, replicate, total,
}
use llfree_c.Types.{uint64_max, atomic_size, child_size, Outcome, llfree_ok, llfree_err, ok, memory}
use llfree_c.Utils.{
  u64, u32, not64, shl64, sub64, trailing_zeros, count_ones, offsetted, row_from_frame,
}

-- `bitfield_t`.
abbrev pub Bitfield : Type 0
Bitfield = List ℕ

abbrev pub field_n : ℕ
field_n = 8

-- `pos_t`.
pub record Pos : Type 0 where
  pub row : ℕ
  pub bit : ℕ

unfoldable pub get_pos : ℕ → Pos
get_pos index =
    let index' = index % child_size in
    record { row = index' / atomic_size; bit = index' % atomic_size }

unfoldable pub field_init : Bitfield → Bitfield
field_init f = replicate field_n 0

-- What `first_zeros_aligned` leaves in `*v`, and the position.
pub record Hit : Type 0 where
  pub row : ℕ
  pub pos : ℕ

-- The test after the `switch`, for the positions that `trailing_zeros` gives.
abbrev pub hit : ℕ → ℕ → Option Hit
hit p v = if ltb p 64 then some (record { row = v; pos = p }) else none

-- The digits of `v` that are zero, by a subtraction: `((v - mask) & ~v) >> shift & mask`.
abbrev pub zero_digits : ℕ → ℕ → ℕ → ℕ
zero_digits v mask shift = bit_and (bit_and (sub64 v mask) (not64 v) / 2 ^ shift) mask

-- Sets the first aligned `2 ^ order` zero bits. The inner `none` stands for `return false`, which
-- leaves `*v` alone.
unfoldable pub first_zeros_aligned : ℕ → ℕ → Option (Option Hit)
first_zeros_aligned v order =
    if order == 0
    then some (let p = trailing_zeros (not64 v) in hit p (bit_or v (shl64 1 p)))
    else if order == 1
    then some (
        let p = trailing_zeros (not64 (bit_or (bit_or v (v / 2)) 0xaaaaaaaaaaaaaaaa)) in
        hit p (bit_or v (shl64 0b11 p)))
    else if order == 2
    then some (
        let p = trailing_zeros (zero_digits v 0x1111111111111111 3) in
        hit p (bit_or v (shl64 0b1111 p)))
    else if order == 3
    then some (
        let p = trailing_zeros (zero_digits v 0x0101010101010101 7) in
        hit p (bit_or v (shl64 0xff p)))
    else if order == 4
    then some (
        let p = trailing_zeros (zero_digits v 0x0001000100010001 15) in
        hit p (bit_or v (shl64 0xffff p)))
    else if order == 5
    then some (
        if u32 v == 0
        then some (record { row = bit_or v 0xffffffff; pos = 0 })
        else if v / 2 ^ 32 == 0
        then some (record { row = bit_or v (shl64 0xffffffff 32); pos = 32 })
        else none)
    else if order == 6
    then some (if v == 0 then some (record { row = uint64_max; pos = 0 }) else none)
    else none

-- `atom_cmp_exchange` on a row.
unfoldable pub cmp_exchange : Bitfield → ℕ → ℕ → ℕ → Option (Bitfield × Bool)
cmp_exchange f i expected desired = do
  v ← get_elem? f i
  some (if v == expected then (set f i desired, true) else (f, false))

-- The undo loop of `field_set_next`, over `j` from `j` on, with `left` rounds to go.
unfoldable pub undo_set : ℕ → ℕ → ℕ → Bitfield → Option Bitfield
undo_set zero base j f = some f
undo_set (suc left) base j f = do
  (f', done) ← cmp_exchange f (base + j) uint64_max 0
  assert done
  undo_set left base (j + 1) f'

-- The loop over the rows of one slot: `true` when all of them were claimed.
unfoldable pub set_rows : ℕ → ℕ → ℕ → Bitfield → Option (Bitfield × Bool)
set_rows zero base i f = some (f, true)
set_rows (suc left) base i f = do
  (f', done) ← cmp_exchange f (base + i) 0 uint64_max
  elim done [
    | true ↦ set_rows left base (i + 1) f'
    | false ↦ undo_set i base 0 f' >>= λ g. some (g, false)
  ]

-- The search for a run inside one row, over the rows that are left.
unfoldable pub set_next_in_rows : ℕ → List ℕ → Bitfield → Option (Bitfield × Outcome)
set_next_in_rows order [] f = some (f, llfree_err memory)
set_next_in_rows order (i ∷ rest) f = do
  v ← get_elem? f i
  found ← first_zeros_aligned v order
  elim found [
    | none ↦ set_next_in_rows order rest f
    | some h ↦ some (set f i h.row, llfree_ok (i * atomic_size + h.pos) 0)
  ]

-- The search for a run of `entries` whole rows, over the slots that are left.
unfoldable pub set_next_of_rows : ℕ → List ℕ → Bitfield → Option (Bitfield × Outcome)
set_next_of_rows entries [] f = some (f, llfree_err memory)
set_next_of_rows entries (i ∷ rest) f = do
  (f', done) ← set_rows entries (i * entries) 0 f
  elim done [
    | true ↦ some (f', llfree_ok (i * entries * atomic_size) 0)
    | false ↦ set_next_of_rows entries rest f'
  ]

unfoldable pub field_set_next : Bitfield → ℕ → ℕ → Option (Bitfield × Outcome)
field_set_next f start_frame order =
    let num_frames = 2 ^ order in
    let row = row_from_frame start_frame % field_n in
    let entries = num_frames / atomic_size in
    assert (ltb num_frames child_size)
    >> (if leb num_frames atomic_size
        then set_next_in_rows order (offsetted row field_n) f
        else set_next_of_rows entries (offsetted (row / entries) (field_n / entries)) f)

-- The inner `none` stands for `return false`.
unfoldable pub row_toggle : ℕ → ℕ → Bool → Option ℕ
row_toggle v mask true = if bit_and v mask == mask then some (bit_and v (not64 mask)) else none
row_toggle v mask false = if bit_and v mask == 0 then some (bit_or v mask) else none

-- The undo loop of `field_toggle`: `left` rounds to go, from `j` on. A failed exchange stops the
-- program, so the value that it leaves in `mask` is never read.
unfoldable pub undo_toggle : ℕ → ℕ → ℕ → ℕ → ℕ → Bitfield → Option Bitfield
undo_toggle zero row i j mask f = some f
undo_toggle (suc left) row i j mask f = do
  (f', success) ← cmp_exchange f (row + i - j - 1) mask (not64 mask)
  assert success
  undo_toggle left row i (j + 1) mask f'

-- The loop over whole rows: `left` rounds to go, from `i` on.
unfoldable pub toggle_rows : ℕ → ℕ → ℕ → ℕ → Bitfield → Option (Bitfield × Outcome)
toggle_rows zero row i mask f = some (f, llfree_err ok)
toggle_rows (suc left) row i mask f = do
  (f', done) ← cmp_exchange f (row + i) mask (not64 mask)
  elim done [
    | true ↦ toggle_rows left row (i + 1) mask f'
    | false ↦ undo_toggle i row i 0 mask f' >>= λ g. some (g, llfree_err memory)
  ]

-- `atom_update` of one row by `row_toggle`.
unfoldable pub toggle_in_row : Bitfield → ℕ → ℕ → Bool → Option (Bitfield × Outcome)
toggle_in_row f i mask expected = do
  v ← get_elem? f i
  some (elim (row_toggle v mask expected) [
    | some v' ↦ (set f i v', llfree_err ok)
    | none ↦ (f, llfree_err memory)
  ])

unfoldable pub field_toggle : Bitfield → ℕ → ℕ → Bool → Option (Bitfield × Outcome)
field_toggle f index order expected =
    let pos = get_pos index in
    let num_frames = 2 ^ order in
    assert (ltb index child_size)
    >> (if ltb atomic_size num_frames
        then toggle_rows (num_frames / atomic_size) pos.row 0 (if expected then uint64_max else 0) f
        else toggle_in_row f pos.row (shl64 (uint64_max / 2 ^ (atomic_size - num_frames)) pos.bit)
            expected)

unfoldable pub field_count_ones : Bitfield → Option ℕ
field_count_ones f =
    let counter = total count_ones f in assert (leb counter child_size) >> some counter

unfoldable pub field_is_free : Bitfield → ℕ → Option Bool
field_is_free f index =
    let pos = get_pos index in
    assert (ltb index child_size)
    >> (get_elem? f pos.row >>= λ row. some (bit_and row (shl64 1 pos.bit) == 0))
