-- ===== src/Tests/Bits.antt =====
-- src/bitfield.c and the loops of src/utils.h and src/trees.c at concrete inputs.
use llfree_c.Base.{
  ℕ, zero, suc, ◌+◌, ◌-◌, ◌^◌, ◌%◌, ◌<◌, ◌≤◌, ◌≡◌, refl, arith, true, false, some, none, Option,
  replicate, get_elem?, set,
}
use llfree_c.Types.{Outcome, llfree_ok, llfree_err, ok}
use llfree_c.Utils.{
  ctz, trailing_zeros, offsetted, offsetted_from, next_pow2, log2, clz, leading_zeros,
}
use Prim.Native.Nat.{◌-◌}
use llfree_c.Utils.{align_up}
use llfree_c.Utils.Align.{align_up_lem}
use llfree_c.Utils.Offsetted.{value_round, offsetted-once}
use llfree_c.Trees.Search.{search_index}
use llfree_c.Trees.Rounds.{tree_round, search_index-once}
use llfree_c.Bitfield.{
  Bitfield, Hit, first_zeros_aligned, field_set_next, set_next_in_rows, field_toggle,
}
use llfree_c.Bitfield.FirstZeros.Correct.{IsFirst, first_zeros_aligned_lem}
use llfree_c.Bitfield.Field.{IsField}
use llfree_c.Bitfield.SetNext.{SearchedAll, field_set_next_lem}
use llfree_c.Bitfield.Toggle.{toggled, toggle_result, field_toggle_lem}
use llfree_c.Bitfield.RoundTrip.{field_toggle-field_set_next}
use llfree_c.Bitfield.Undo.{field_toggle-undo_fails}

first_zeros_aligned-nibble :
    first_zeros_aligned 0x0101 2 ≡ some (some (record { row = 0x01f1; pos = 4 }))
unfolding first_zeros_aligned trailing_zeros ctz
first_zeros_aligned-nibble = refl

next_pow2-eight : next_pow2 5 ≡ some 8
unfolding next_pow2 log2 leading_zeros clz
next_pow2-eight = refl

first_zeros_aligned_lem_example :
    (found : Option Hit) × (first_zeros_aligned 0x0f0f 2 ≡ some found)
    × IsFirst (2 ^ 2) (2 ^ (6 - 2)) 0x0f0f found
first_zeros_aligned_lem_example = first_zeros_aligned_lem 0x0f0f 2 (omega arith) (omega arith)

-- A field without a bit set.
abbrev pub empty_field : Bitfield
empty_field = replicate 8 0

zero_of_replicate : (n i v : ℕ) → get_elem? (replicate n 0) i ≡ some v → v ≡ 0
zero_of_replicate zero i v e = ground arith
zero_of_replicate (suc n) zero v e = ground arith
zero_of_replicate (suc n) (suc i) v e = zero_of_replicate n i v e

pub empty_field-IsField : IsField empty_field
empty_field-IsField = record {
  rows = refl;
  words = λ i v e. omega (arith, zero_of_replicate 8 i v e);
}

field_set_next_lem_example :
    (r : Bitfield × Outcome) × (field_set_next empty_field 70 3 ≡ some r)
    × SearchedAll (2 ^ 3) (2 ^ (6 - 3)) empty_field r
field_set_next_lem_example = field_set_next_lem empty_field 70 3 empty_field-IsField (omega arith)

-- The field after eight bits of its second row were set.
abbrev one_run : Bitfield
one_run = set empty_field 1 0xff

one_run-set : field_set_next empty_field 70 3 ≡ some (one_run, llfree_ok 64 0)
unfolding field_set_next set_next_in_rows offsetted offsetted_from first_zeros_aligned
    trailing_zeros ctz
one_run-set = refl

field_toggle-field_set_next_example :
    field_toggle one_run 64 3 true ≡ some (empty_field, llfree_err ok)
field_toggle-field_set_next_example =
    field_toggle-field_set_next empty_field one_run 70 3 64 empty_field-IsField (omega arith)
      one_run-set

field_toggle_lem_example :
    (v : ℕ) × (get_elem? empty_field 1 ≡ some v)
    × (field_toggle empty_field 72 3 false
        ≡ some (toggle_result empty_field 1 (toggled (2 ^ 3) 8 v false)))
field_toggle_lem_example =
    field_toggle_lem empty_field 72 3 false empty_field-IsField (omega arith) (omega arith) refl

field_toggle-undo_fails_example : field_toggle one_run 0 7 false ≡ none
field_toggle-undo_fails_example =
    field_toggle-undo_fails one_run 0 7 0xff false (omega arith) (omega arith) refl refl
      (omega arith)

offsetted-once_example :
    (value_round 13 8 9 < 8)
    × (get_elem? (offsetted 13 8) (value_round 13 8 9) ≡ some 9)
    × ((k : ℕ) → get_elem? (offsetted 13 8) k ≡ some 9 → k ≡ value_round 13 8 9)
offsetted-once_example = offsetted-once 13 8 9 (omega arith) (omega arith) (omega arith)

search_index-once_example :
    (tree_round 10 3 1 < 10)
    × (search_index 10 3 (tree_round 10 3 1) ≡ 1)
    × ((i : ℕ) → i < 10 → search_index 10 3 i ≡ 1 → i ≡ tree_round 10 3 1)
search_index-once_example = search_index-once 10 3 1 (omega arith) (omega arith) (omega arith)

align_up_lem_example :
    (u : ℕ) × (align_up 1000 (2 ^ 9) ≡ some u) × (u % 2 ^ 9 ≡ 0) × (1000 ≤ u) × (u < 1000 + 2 ^ 9)
align_up_lem_example = align_up_lem 1000 9 (omega arith) (omega arith)
