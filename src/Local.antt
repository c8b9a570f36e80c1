-- ===== src/Local.antt =====
-- src/local.h and src/local.c: the slots that hold the trees reserved for each class. The slice of
-- slots of a class is a list, `none` for a class that is not configured; the byte offsets into the
-- buffer are not modelled.
pub mod Steal
pub mod Stats
pub mod Laws
use llfree_c.Base.{
  ℕ, zero, suc, ◌+◌, ◌-◌, ◌*◌, ◌%◌, ◌^◌, Bool, true, false, not, ◌&&◌, ◌||◌, Option, none, some,
  List, [], ◌∷◌, ltb, leb, ◌==◌, if◌then◌else◌, assert, ◌>>=◌, ◌>>◌, get_elem?, set, replicate,
  length,
}
use llfree_c.Types.{tree_size, max_classes, ClassConf, Classing}
use llfree_c.Utils.{u32, u8, tree_from_row, row_from_tree}

-- `reserved_t`: the counter has 28 bits and the row 35.
pub record Reserved : Type 0 where
  pub present : Bool
  pub free : ℕ
  pub start_row : ℕ

abbrev pub row_bits : ℕ → ℕ
row_bits r = r % 2 ^ 35

unfoldable pub ll_reserved_new : Bool → ℕ → ℕ → Option Reserved
ll_reserved_new present free start_row =
    assert (leb free tree_size)
    >> some (record { present = present; free = free; start_row = row_bits start_row })

-- The test that a tree is the one asked for, if one is.
abbrev pub fits_tree : Reserved → Option ℕ → Bool
fits_tree r none = true
fits_tree r (some tree_idx) = tree_from_row r.start_row == tree_idx

-- `none` stands for `return false`.
unfoldable pub ll_reserved_dec : Reserved → Option ℕ → ℕ → Option Reserved
ll_reserved_dec r tree_idx frames =
    if not r.present || not (fits_tree r tree_idx) || ltb r.free frames
    then none
    else some (record r { free = r.free - frames })

-- The outer `none` is a failed assertion.
unfoldable pub ll_reserved_inc : Reserved → ℕ → ℕ → Option (Option Reserved)
ll_reserved_inc r tree_idx frames =
    let free = u32 (r.free + frames) in
    if not r.present || not (fits_tree r (some tree_idx))
    then some none
    else (assert (leb free tree_size) >> some (some (record r { free = free % 2 ^ 28 })))

unfoldable pub ll_reserved_set_start : Reserved → ℕ → Option Reserved
ll_reserved_set_start r start_row =
    if not r.present || not (fits_tree r (some (tree_from_row start_row)))
    then none
    else some (record r { start_row = row_bits start_row })

unfoldable pub ll_reserved_take : Reserved → Option ℕ → ℕ → Option (Option Reserved)
ll_reserved_take r tree_idx frames = elim (ll_reserved_dec r tree_idx frames) [
  | some _ ↦ ll_reserved_new false 0 0 >>= λ r'. some (some r')
  | none ↦ some none
]

-- `local_t`.
pub record Locals : Type 0 where
  pub num_classes : ℕ
  pub classes : List (Option (List Reserved))

-- The size of the header `local_t` and of a slot `entry_t`, in bytes.
abbrev pub header_bytes : ℕ
header_bytes = 256

abbrev pub entry_bytes : ℕ
entry_bytes = 64

abbrev pub total_count : List ClassConf → ℕ
total_count [] = 0
total_count (c ∷ rest) = c.count + total_count rest

unfoldable pub ll_local_size : Classing → ℕ
ll_local_size classing = header_bytes + entry_bytes * total_count classing.classes

-- The loop of `ll_local_init` over the configured classes.
unfoldable pub init_classes :
    List ClassConf → List (Option (List Reserved)) → Option (List (Option (List Reserved)))
init_classes [] classes = some classes
init_classes (c ∷ rest) classes = do
  _ ← get_elem? classes c.class
  empty ← ll_reserved_new false 0 0
  init_classes rest (set classes c.class (some (replicate c.count empty)))

unfoldable pub ll_local_init : Classing → Option Locals
ll_local_init classing = do
  classes ← init_classes classing.classes (replicate max_classes none)
  some (record { num_classes = u8 (length classing.classes); classes = classes })

-- `len.value`, which is 0 where the class is not configured.
abbrev pub slot_count : Option (List Reserved) → ℕ
slot_count none = 0
slot_count (some slots) = length slots

-- The loop of `ll_local_mem_size`: the classes from `i` on, `left` of them.
unfoldable pub count_slots : Locals → ℕ → ℕ → Option ℕ
count_slots l zero i = some 0
count_slots l (suc left) i = do
  slots ← get_elem? l.classes i
  rest ← count_slots l left (i + 1)
  some (slot_count slots + rest)

unfoldable pub ll_local_mem_size : Locals → Option ℕ
ll_local_mem_size l = do
  total ← count_slots l l.num_classes 0
  some (header_bytes + entry_bytes * total)

abbrev pub count_of : Option (List Reserved) → Option ℕ
count_of none = none
count_of (some slots) = some (length slots)

-- The inner `none` is `ll_none()`.
unfoldable pub ll_local_class_locals : Locals → ℕ → Option (Option ℕ)
ll_local_class_locals l class =
    if leb max_classes class
    then some none
    else (get_elem? l.classes class >>= λ slots. some (count_of slots))

-- The assertions on the class and the index, and the load of the slot.
unfoldable pub get_slot : Locals → ℕ → ℕ → Option Reserved
get_slot l class index = do
  assert (ltb class max_classes)
  slots ← get_elem? l.classes class
  entries ← slots
  get_elem? entries index

abbrev pub set_in : Option (List Reserved) → ℕ → Reserved → Option (List Reserved)
set_in none index r = none
set_in (some entries) index r = some (set entries index r)

unfoldable pub put_slot : Locals → ℕ → ℕ → Reserved → Locals
put_slot l class index r = elim (get_elem? l.classes class) [
  | some slots ↦ record l { classes = set l.classes class (set_in slots index r) }
  | none ↦ l
]

-- `local_result_t`.
pub record LocalResult : Type 0 where
  pub success : Bool
  pub present : Bool
  pub class : ℕ
  pub free : ℕ
  pub start_row : ℕ

abbrev pub make_result : Bool → ℕ → Reserved → LocalResult
make_result success class old = record {
  success = success;
  present = old.present;
  class = class;
  free = old.free;
  start_row = old.start_row;
}

unfoldable pub ll_local_get : Locals → ℕ → ℕ → Option ℕ → ℕ → Option (Locals × LocalResult)
ll_local_get l class index tree_idx frames = do
  old ← get_slot l class index
  some (elim (ll_reserved_dec old tree_idx frames) [
    | some r ↦ (put_slot l class index r, make_result true class old)
    | none ↦ (l, make_result false class old)
  ])

unfoldable pub ll_local_put : Locals → ℕ → ℕ → ℕ → ℕ → Option (Locals × Bool)
ll_local_put l class index tree_idx frames = do
  old ← get_slot l class index
  done ← ll_reserved_inc old tree_idx frames
  some (elim done [ some r ↦ (put_slot l class index r, true) | none ↦ (l, false) ])

unfoldable pub ll_local_set_start : Locals → ℕ → ℕ → ℕ → Option (Locals × LocalResult)
ll_local_set_start l class index start_row = do
  old ← get_slot l class index
  some (elim (ll_reserved_set_start old start_row) [
    | some r ↦ (put_slot l class index r, make_result true class old)
    | none ↦ (l, make_result false class old)
  ])

unfoldable pub ll_local_swap : Locals → ℕ → ℕ → ℕ → ℕ → Option (Locals × LocalResult)
ll_local_swap l class index new_tree_idx new_free = do
  old ← get_slot l class index
  new ← ll_reserved_new true new_free (row_from_tree new_tree_idx)
  some (put_slot l class index new, make_result true class old)

unfoldable pub ll_local_drain : Locals → ℕ → ℕ → Option (Locals × LocalResult)
ll_local_drain l class index = do
  old ← get_slot l class index
  empty ← ll_reserved_new false 0 0
  some (put_slot l class index empty, make_result old.present class old)
