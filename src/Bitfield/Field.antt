-- ===== src/Bitfield/Field.antt =====
-- A bit field of src/bitfield.c as eight words of 64 bits, and its ones.
use llfree_c.Base.{
  ℕ, ◌+◌, ◌-◌, ◌*◌, ◌^◌, ◌≤◌, ◌<◌, ◌≡◌, ◌∙◌, arith, some, inl, inr, length, get_elem?, set, total,
  length-set, get_elem?-set_self, get_elem?-set_ne, lt_of_get_elem?, total-set, Bool-cases, ◌==◌,
}
use llfree_c.Utils.{count_ones}
use llfree_c.Bitfield.{Bitfield, field_n}
use llfree_c.Bitfield.FirstZeros.Spec.{digit}
use llfree_c.Bitfield.Slots.{count_ones-set, set-lt}

-- `alignas(64) _Atomic(uint64_t) rows[FIELD_N]`.
pub record IsField (f : Bitfield) : Type 0 where
  pub rows : length f ≡ field_n
  pub words : (i v : ℕ) → get_elem? f i ≡ some v → v < 2 ^ 64

-- The bits that are set.
abbrev pub ones : Bitfield → ℕ
ones f = total count_ones f

pub set-IsField : (f : Bitfield) (i v : ℕ) → IsField f → v < 2 ^ 64 → IsField (set f i v)
set-IsField f i v field h = record {
  rows = length-set f i v ∙ field.rows;
  words = λ j u e. elim (Bool-cases (i == j)) [
    | inl same ↦
        let here : i ≡ j = ground arith in
        let short : i < length f =
          omega (arith, lt_of_get_elem? (set f i v) j u e, length-set f i v) in
        ground (arith, get_elem?-set_self f i v short, e, here)
    | inr other ↦ field.words j u (ground (arith, get_elem?-set_ne f i j v (ground arith), e))
  ];
}

-- The run of `w` bits number `slot` of row `i`, set.
abbrev pub set_run : Bitfield → ℕ → ℕ → ℕ → ℕ → Bitfield
set_run f i v w slot = set f i (v + (2 ^ w - 1) * 2 ^ (slot * w))

pub set_run-IsField :
    (f : Bitfield) (i v w slot : ℕ)
    → IsField f
    → get_elem? f i ≡ some v
    → slot * w + w ≤ 64
    → digit w v slot ≡ 0
    → IsField (set_run f i v w slot)
set_run-IsField f i v w slot field at room clear =
    set-IsField f i _ field (set-lt w (slot * w) v room (field.words i v at) clear)

pub ones-set_run :
    (f : Bitfield) (i v w slot : ℕ)
    → get_elem? f i ≡ some v
    → slot * w + w ≤ 64
    → digit w v slot ≡ 0
    → ones (set_run f i v w slot) ≡ ones f + w
ones-set_run f i v w slot at room clear = omega (
  arith,
  total-set count_ones f i v (v + (2 ^ w - 1) * 2 ^ (slot * w)) at,
  count_ones-set w (slot * w) v room clear,
)
