-- ===== src/Bitfield/SetNext.antt =====
-- `field_set_next` of src/bitfield.c, for the runs that lie inside one row.
use native.Mathlib.Nat.{mul-le-mul_right, mul-mod_left}
use llfree_c.Base.{
  ℕ, zero, suc, ◌+◌, ◌-◌, ◌*◌, ◌%◌, ◌^◌, ◌≤◌, ◌<◌, ◌≡◌, ◌⊎◌, inl, inr, refl, arith, some, List, [],
  ◌∷◌, get_elem?, get_elem?_of_lt, lt_of_get_elem?, ltb, leb, true, ap, leb-true, ltb-true,
}
use mathlib.Core.Path.{subst}
use llfree_c.Base.Bits.{two_pow_add, two_pow_le}
use llfree_c.Types.{Outcome, llfree_ok, llfree_err, memory}
use llfree_c.Utils.{offsetted, row_from_frame}
use llfree_c.Utils.Offsetted.{offsetted-once, offsetted-at, length-offsetted}
use llfree_c.Bitfield.{Bitfield, set_next_in_rows, field_set_next}
use llfree_c.Bitfield.FirstZeros.Spec.{FirstSlot, IsFull}
use llfree_c.Bitfield.FirstZeros.Correct.{first_zeros_aligned_lem}
use llfree_c.Bitfield.Field.{IsField, ones, set_run, set_run-IsField, ones-set_run}

-- A claim of `w` bits: which run was free, and what became of the field.
pub record Claimed (w n : ℕ) (f f' : Bitfield) (frame : ℕ) : Type 0 where
  pub row : ℕ
  pub word : ℕ
  pub slot : ℕ
  pub at : get_elem? f row ≡ some word
  pub first : FirstSlot w n word slot
  pub place : frame ≡ (row * n + slot) * w
  pub after : f' ≡ set_run f row word w slot

-- The end of a search of the rows: a claim, or no row with a free run.
abbrev pub Searched : ℕ → ℕ → List ℕ → Bitfield → Bitfield × Outcome → Type 0
Searched w n rows f r =
    ((frame : ℕ) × Claimed w n f r.0 frame × (r.1 ≡ llfree_ok frame 0))
    ⊎ ((r ≡ (f, llfree_err memory))
        × ((k i v : ℕ) → get_elem? rows k ≡ some i → get_elem? f i ≡ some v → IsFull w n v))

-- The groups of a row fill it.
pub groups : (order : ℕ) → order ≤ 6 → 2 ^ (6 - order) * 2 ^ order ≡ 64
groups order h =
    let width : 6 - order + order ≡ 6 = omega arith in
    omega (arith, two_pow_add (6 - order) order, ap (λ (t : ℕ). 2 ^ t) width)

pub frame_of_run : (i n w slot : ℕ) → n * w ≡ 64 → i * 64 + slot * w ≡ (i * n + slot) * w
frame_of_run i n w slot h = omega (arith, ap (λ (t : ℕ). i * t) h)

-- A row without a free run joins those before it.
Searched-cons :
    (w n i v : ℕ) (rest : List ℕ) (f : Bitfield) (r : Bitfield × Outcome)
    → get_elem? f i ≡ some v
    → IsFull w n v
    → Searched w n rest f r
    → Searched w n (i ∷ rest) f r
Searched-cons w n i v rest f r at full (inl claimed) = inl claimed
Searched-cons w n i v rest f r at full (inr (same, others)) = inr (same, each)
  where
    each : (k j u : ℕ) → get_elem? (i ∷ rest) k ≡ some j → get_elem? f j ≡ some u → IsFull w n u
    each zero j u e g =
        let row : i ≡ j = ground arith in
        let word : v ≡ u = ground arith in subst (IsFull w n) word full
    each (suc k) j u e g = others k j u e g

set_next_in_rows_lem :
    (order : ℕ) (rows : List ℕ) (f : Bitfield)
    → order ≤ 6
    → IsField f
    → ((k i : ℕ) → get_elem? rows k ≡ some i → i < 8)
    → (r : Bitfield × Outcome) × (set_next_in_rows order rows f ≡ some r)
      × Searched (2 ^ order) (2 ^ (6 - order)) rows f r
unfolding set_next_in_rows
set_next_in_rows_lem order [] f h field inside = (_, refl, inr (refl, λ k i v e. ground arith))
set_next_in_rows_lem order (i ∷ rest) f h field inside =
    let n = 2 ^ (6 - order) in
    let w = 2 ^ order in
    let (v, at) = get_elem?_of_lt f i (omega (arith, field.rows, inside 0 i refl)) in
    let (found, runs, first) = first_zeros_aligned_lem v order (field.words i v at) h in
    let (r, later, searched) = set_next_in_rows_lem order rest f h field (λ k. inside (suc k)) in
    elim first [
      | inl (slot, is_first, e) ↦
          let claim : Claimed w n f (set_run f i v w slot) (i * 64 + slot * w) = record {
            row = i;
            word = v;
            slot = slot;
            at = at;
            first = is_first;
            place = frame_of_run i n w slot (groups order h);
            after = refl;
          } in
          (_, rw (at, runs, e) refl, inl (_, claim, refl))
      | inr (e, full) ↦ (r, rw (at, runs, e) later, Searched-cons w n i v rest f r at full searched)
    ]

-- A search of every row: a claim of the first free run of a row, or no row with a free run.
abbrev pub SearchedAll : ℕ → ℕ → Bitfield → Bitfield × Outcome → Type 0
SearchedAll w n f r =
    ((frame : ℕ) × Claimed w n f r.0 frame × (r.1 ≡ llfree_ok frame 0))
    ⊎ ((r ≡ (f, llfree_err memory)) × ((i v : ℕ) → get_elem? f i ≡ some v → IsFull w n v))

-- The circular order has the rows of the field and no others.
rows_inside : (row k i : ℕ) → row < 8 → get_elem? (offsetted row 8) k ≡ some i → i < 8
rows_inside row k i h e =
    let short : k < 8 =
      omega (arith, lt_of_get_elem? (offsetted row 8) k i e, length-offsetted row 8) in
    ground (arith, offsetted-at row 8 k short, e)

every_row :
    (w n row : ℕ) (f : Bitfield) (r : Bitfield × Outcome)
    → IsField f
    → row < 8
    → Searched w n (offsetted row 8) f r
    → SearchedAll w n f r
every_row w n row f r field h (inl claimed) = inl claimed
every_row w n row f r field h (inr (same, full)) = inr (
  same,
  λ i v e.
      let short : i < 8 = omega (arith, lt_of_get_elem? f i v e, field.rows) in
      let (_, at, _) = offsetted-once row 8 i (omega arith) (omega arith) (omega arith) in
      full _ i v at e,
)

-- On a well-formed field and for every order up to 6, `field_set_next` does not fail an assertion.
-- It sets the first free aligned run of some row and returns its place, or, when no row has a free
-- aligned run, it reports that memory is out and leaves the field as it was.
pub field_set_next_lem :
    (f : Bitfield) (start_frame order : ℕ)
    → IsField f
    → order ≤ 6
    → (r : Bitfield × Outcome) × (field_set_next f start_frame order ≡ some r)
      × SearchedAll (2 ^ order) (2 ^ (6 - order)) f r
unfolding field_set_next
field_set_next_lem f start_frame order field h =
    let row = row_from_frame start_frame % 8 in
    let row_lt : row < 8 = omega arith in
    let small : 2 ^ order ≤ 2 ^ 6 = two_pow_le order 6 h in
    let fits : ltb (2 ^ order) 512 ≡ true = ltb-true _ _ (omega arith) in
    let one_row : leb (2 ^ order) 64 ≡ true = leb-true _ _ small in
    let (r, done, searched) =
      set_next_in_rows_lem order (offsetted row 8) f h field (λ k i. rows_inside row k i row_lt) in
    (r, rw (fits, one_row) done, every_row _ _ row f r field row_lt searched)

pub Claimed-lem :
    (w n : ℕ) (f f' : Bitfield) (frame : ℕ)
    → n * w ≡ 64
    → IsField f
    → Claimed w n f f' frame
    → IsField f' × (ones f' ≡ ones f + w) × (frame % w ≡ 0) × (frame + w ≤ 512)
Claimed-lem w n f f' frame whole field c =
    let inside = mul-le-mul_right w c.first.inside in
    let room : c.slot * w + w ≤ 64 = omega (arith, inside) in
    let split = frame_of_run c.row n w c.slot whole in
    let row_lt = lt_of_get_elem? f c.row c.word c.at in
    rw (c.after, c.place)
      (
        set_run-IsField f c.row c.word w c.slot field c.at room c.first.clear,
        ones-set_run f c.row c.word w c.slot c.at room c.first.clear,
        mul-mod_left (c.row * n + c.slot) w,
        omega (arith, field.rows),
      )

-- What a search that found a run has done.
pub field_set_next-Claimed :
    (f f' : Bitfield) (start_frame order frame : ℕ)
    → IsField f
    → order ≤ 6
    → field_set_next f start_frame order ≡ some (f', llfree_ok frame 0)
    → Claimed (2 ^ order) (2 ^ (6 - order)) f f' frame
field_set_next-Claimed f f' start_frame order frame field h run =
    let (r, done, searched) = field_set_next_lem f start_frame order field h in
    let same : (f', llfree_ok frame 0) ≡ r = ground (arith, run, done) in
    elim searched [
      | inl (place, claim, e) ↦
          let at : place ≡ frame = ground (arith, same, e) in
          let left : r.0 ≡ f' = ground (arith, same) in
          subst (λ p. Claimed (2 ^ order) (2 ^ (6 - order)) f p frame) left
            (subst (λ p. Claimed (2 ^ order) (2 ^ (6 - order)) f r.0 p) at claim)
      | inr (e, full) ↦ ground (arith, same, e)
    ]

-- When `field_set_next` finds a run of an order up to 6 in a well-formed field, the field stays
-- well formed, the run lies in the field and is aligned to its size, and the field has `2 ^ order`
-- set bits more.
pub field_set_next-ones :
    (f f' : Bitfield) (start_frame order frame : ℕ)
    → IsField f
    → order ≤ 6
    → field_set_next f start_frame order ≡ some (f', llfree_ok frame 0)
    → IsField f'
      × (ones f' ≡ ones f + 2 ^ order)
      × (frame % 2 ^ order ≡ 0)
      × (frame + 2 ^ order ≤ 512)
field_set_next-ones f f' start_frame order frame field h run =
    Claimed-lem (2 ^ order) (2 ^ (6 - order)) f f' frame (groups order h) field
      (field_set_next-Claimed f f' start_frame order frame field h run)
