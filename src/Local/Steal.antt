-- ===== src/Local/Steal.antt =====
-- `ll_local_steal` and `ll_local_demote_any` of src/local.c.
use llfree_c.Base.{
  ℕ, zero, suc, ◌+◌, ◌%◌, Bool, true, false, not, ◌||◌, ◌&&◌, Option, none, some, ltb, ◌==◌,
  if◌then◌else◌, ◌>>=◌, get_elem?,
}
use llfree_c.Types.{max_classes, PolicyFn, PolicyType, matched, steal}
use llfree_c.Tree.{is_demote}
use llfree_c.Local.{
  Reserved, Locals, LocalResult, make_result, ll_reserved_dec, ll_reserved_take, get_slot, put_slot,
  slot_count, count_of,
}

abbrev pub may_steal : PolicyType → Bool
may_steal matched = true
may_steal steal = true
may_steal _ = false

-- The inner loop: slots of `class` from round `j` on, `left` of them, beginning at `index`.
unfoldable pub steal_slots :
    ℕ → ℕ → ℕ → ℕ → ℕ → Option ℕ → ℕ → Locals → Option (Locals × Option LocalResult)
steal_slots zero j len class index tree_idx frames l = some (l, none)
steal_slots (suc left) j len class index tree_idx frames l =
    let jj = (index + j) % len in
    do
      old ← get_slot l class jj
      elim (ll_reserved_dec old tree_idx frames) [
        | some r ↦ some (put_slot l class jj r, some (make_result true class old))
        | none ↦ steal_slots left (j + 1) len class index tree_idx frames l
      ]

-- `{ .success = false }`.
abbrev pub no_result : LocalResult
no_result = record { success = false; present = false; class = 0; free = 0; start_row = 0 }

-- The classes from round `i` on, `left` of them.
unfoldable pub steal_classes :
    ℕ → ℕ → ℕ → ℕ → Option ℕ → ℕ → PolicyFn → Locals → Option (Locals × LocalResult)
steal_classes zero i class index tree_idx frames policy l = some (l, no_result)
steal_classes (suc left) i class index tree_idx frames policy l =
    let target = (i + class) % max_classes in
    do
      slots ← get_elem? l.classes target
      let len = slot_count slots
      elim (len == 0 || not (may_steal (policy class target frames).type)) [
        | true ↦ steal_classes left (i + 1) class index tree_idx frames policy l
        | false ↦ do
          (l', found) ← steal_slots len 0 len target index tree_idx frames l
          elim found [
            | some r ↦ some (l', r)
            | none ↦ steal_classes left (i + 1) class index tree_idx frames policy l'
          ]
      ]

unfoldable pub ll_local_steal :
    Locals → ℕ → ℕ → Option ℕ → ℕ → PolicyFn → Option (Locals × LocalResult)
ll_local_steal l class index tree_idx frames policy =
    steal_classes max_classes 0 class index tree_idx frames policy l

-- `demote_any_result_t` where it was found: `row`, and what to unreserve.
pub record Demoted : Type 0 where
  pub row : ℕ
  pub unreserve : Bool
  pub unres_row : ℕ
  pub unres_class : ℕ
  pub unres_free : ℕ

abbrev pub or_zero : Option ℕ → ℕ
or_zero none = 0
or_zero (some i) = i

-- Whether the requesting class has the slot asked for.
abbrev pub has_slot : Option ℕ → Option ℕ → Bool
has_slot (some index) (some len) = ltb 0 len && ltb index len
has_slot _ _ = false

-- After the slot was taken: the swap into the requesting slot, or none.
unfoldable pub place_demoted : Reserved → ℕ → Option ℕ → Locals → Option (Locals × Demoted)
place_demoted new_res class index l = do
  slots ← get_elem? l.classes class
  if has_slot index (count_of slots)
      then (do
        prev ← get_slot l class (or_zero index)
        some (
          put_slot l class (or_zero index) new_res,
          record {
            row = new_res.start_row;
            unreserve = prev.present;
            unres_row = prev.start_row;
            unres_class = class;
            unres_free = prev.free;
          },
        ))
      else some (
        l,
        record {
          row = new_res.start_row;
          unreserve = true;
          unres_row = new_res.start_row;
          unres_class = class;
          unres_free = new_res.free;
        },
      )

unfoldable pub demote_slots :
    ℕ → ℕ → ℕ → ℕ → ℕ → Option ℕ → Option ℕ → ℕ → Locals → Option (Locals × Option Demoted)
demote_slots zero j len target class index tree_idx frames l = some (l, none)
demote_slots (suc left) j len target class index tree_idx frames l =
    let jj = (or_zero index + j) % len in
    do
      old ← get_slot l target jj
      taken ← ll_reserved_take old tree_idx frames
      elim taken [
        | some empty ↦ do
          new_res ← ll_reserved_dec old tree_idx frames
          (l', d) ← place_demoted new_res class index (put_slot l target jj empty)
          some (l', some d)
        | none ↦ demote_slots left (j + 1) len target class index tree_idx frames l
      ]

unfoldable pub demote_classes :
    ℕ → ℕ → ℕ → Option ℕ → Option ℕ → ℕ → PolicyFn → Locals → Option (Locals × Option Demoted)
demote_classes zero i class index tree_idx frames policy l = some (l, none)
demote_classes (suc left) i class index tree_idx frames policy l =
    let target = (i + class) % max_classes in
    do
      slots ← get_elem? l.classes target
      let len = slot_count slots
      elim (not (len == 0) && is_demote (policy class target frames).type) [
        | false ↦ demote_classes left (i + 1) class index tree_idx frames policy l
        | true ↦ do
          (l', found) ← demote_slots len 0 len target class index tree_idx frames l
          elim found [
            | some d ↦ some (l', some d)
            | none ↦ demote_classes left (i + 1) class index tree_idx frames policy l'
          ]
      ]

-- `none` inside is `fail`. Seven rounds, from 1 on.
unfoldable pub ll_local_demote_any :
    Locals → ℕ → Option ℕ → Option ℕ → ℕ → PolicyFn → Option (Locals × Option Demoted)
ll_local_demote_any l class index tree_idx frames policy =
    demote_classes 7 1 class index tree_idx frames policy l
