-- ===== src/Bitfield/Undo.antt =====
-- The undo loop of `field_toggle` in src/bitfield.c, for runs of two rows or more.
use llfree_c.Base.{
  ℕ, suc, ◌+◌, ◌-◌, ◌/◌, ◌%◌, ◌^◌, ◌≤◌, ◌<◌, ◌≡◌, ◌≢◌, refl, arith, Bool, true, false, none, some,
  get_elem?, set, ltb, if◌then◌else◌, get_elem?-set_self, get_elem?-set_ne, lt_of_get_elem?, ◌∙◌,
  ==-true, ltb-true,
}
use llfree_c.Base.Bits.{two_pow_le}
use llfree_c.Types.{uint64_max}
use llfree_c.Utils.{not64}
use llfree_c.Bitfield.{Bitfield, cmp_exchange, undo_toggle, toggle_rows, field_toggle, get_pos}

-- The word that every row of the run has to be.
abbrev pub row_mask : Bool → ℕ
row_mask expected = if expected then uint64_max else 0

row_mask-ne : (expected : Bool) → not64 (row_mask expected) ≢ row_mask expected
row_mask-ne true = omega arith
row_mask-ne false = omega arith

pub cmp_exchange-hit :
    (f : Bitfield) (i e d : ℕ)
    → get_elem? f i ≡ some e
    → cmp_exchange f i e d ≡ some (set f i d, true)
unfolding cmp_exchange
cmp_exchange-hit f i e d h = rw h (rw (==-true e e refl) refl)

pub cmp_exchange-miss :
    (f : Bitfield) (i v e d : ℕ)
    → get_elem? f i ≡ some v
    → v ≢ e
    → cmp_exchange f i e d ≡ some (f, false)
unfolding cmp_exchange
cmp_exchange-miss f i v e d h ne = rw h (ground arith)

toggle_rows-second :
    (left row m v : ℕ) (f : Bitfield)
    → get_elem? f row ≡ some m
    → get_elem? f (row + 1) ≡ some v
    → v ≢ m
    → not64 m ≢ m
    → toggle_rows (suc (suc left)) row 0 m f ≡ none
unfolding toggle_rows undo_toggle
toggle_rows-second left row m v f first second ne flip =
    let at_first : row + 0 ≡ row = omega arith in
    let at_second : row + (0 + 1) ≡ row + 1 = omega arith in
    let at_undo : row + (0 + 1) - 0 - 1 ≡ row = omega arith in
    let g = set f row (not64 m) in
    let other : row ≢ row + 1 = omega arith in
    let kept : get_elem? g (row + 1) ≡ some v =
      get_elem?-set_ne f row (row + 1) (not64 m) other ∙ second in
    let flipped : get_elem? g row ≡ some (not64 m) =
      get_elem?-set_self f row (not64 m) (lt_of_get_elem? f row m first) in
    rw
      (
        at_first,
        cmp_exchange-hit f row m (not64 m) first,
        at_second,
        cmp_exchange-miss g (row + 1) v m (not64 m) kept ne,
        at_undo,
        cmp_exchange-miss g row (not64 m) m (not64 m) flipped flip,
      )
      refl

-- A run of two rows or more whose first row can be toggled and whose second cannot: the undo of the
-- first row fails its assertion, so `field_toggle` does not return. This holds for allocating and
-- for freeing, for every order above 6, and whatever the other rows hold.
pub field_toggle-undo_fails :
    (f : Bitfield) (index order v : ℕ) (expected : Bool)
    → 6 < order
    → index < 512
    → get_elem? f (index / 64) ≡ some (row_mask expected)
    → get_elem? f (index / 64 + 1) ≡ some v
    → v ≢ row_mask expected
    → field_toggle f index order expected ≡ none
unfolding field_toggle get_pos
field_toggle-undo_fails f index order v expected large inside first second ne =
    let many : 128 ≤ 2 ^ order = two_pow_le 7 order large in
    let test : ltb 64 (2 ^ order) ≡ true = ltb-true _ _ (omega arith) in
    let within : ltb index 512 ≡ true = ltb-true _ _ inside in
    let row : index % 512 / 64 ≡ index / 64 = omega arith in
    let rows : 2 ^ order / 64 ≡ suc (suc (2 ^ order / 64 - 2)) = omega arith in
    rw
      (
        within,
        test,
        row,
        rows,
        toggle_rows-second (2 ^ order / 64 - 2) (index / 64) (row_mask expected) v f first second ne
            (row_mask-ne expected),
      )
      refl
