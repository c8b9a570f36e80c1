-- ===== src/Llfree/Upper.antt =====
-- What holds of the allocator of src/llfree.c between two accesses: no tree gives away more frames
-- than its children have. The frames of a tree are on its counter, on the slots that reserve it, or
-- in the hand of the running operation.
pub mod Steps
pub mod Entries
pub mod Slots
pub mod Swaps
pub mod Steal
pub mod Requests
pub mod Puts
pub mod Ends
pub mod Reserve
pub mod Callbacks
pub mod Own
pub mod Moved
pub mod OwnSlot
pub mod Demote
pub mod DemoteAny
pub mod Others
pub mod Searches
pub mod Places
pub mod At
pub mod Any
pub mod Gets
pub mod Paired
pub mod Drain
pub mod Drained
pub mod History
pub mod Balance
pub mod InitLocal
pub mod InitTrees
pub mod Init
pub mod Safety
use llfree_c.Base.{
  ℕ, ◌+◌, ◌*◌, ◌/◌, ◌≤◌, ◌<◌, ◌≡◌, Bool, true, false, ◌&&◌, ◌==◌, if◌then◌else◌, Option, some, none,
  List, [], ◌∷◌, get_elem?, length, total,
}
use llfree_c.Utils.{tree_from_row}
use llfree_c.Tree.{Tree}
use llfree_c.Tree.Laws.{IsTree}
use llfree_c.Trees.{Trees}
use llfree_c.Local.{Reserved, Locals, count_of}
use llfree_c.Lower.Counts.{tree_free}
use llfree_c.Lower.Ready.{IsReady}
use llfree_c.Llfree.{Llfree}

-- The counter of tree `i`.
abbrev pub counter_of : Option Tree → ℕ
counter_of none = 0
counter_of (some t) = t.free

abbrev pub counter : Trees → ℕ → ℕ
counter s i = counter_of (get_elem? s.entries i)

-- The frames of tree `i` on a slot, on the slots of a class, and on all slots.
abbrev pub slot_frames : ℕ → Reserved → ℕ
slot_frames i r = if r.present && (i == tree_from_row r.start_row) then r.free else 0

abbrev pub class_frames : ℕ → Option (List Reserved) → ℕ
class_frames i none = 0
class_frames i (some slots) = total (slot_frames i) slots

abbrev pub held : Locals → ℕ → ℕ
held l i = total (class_frames i) l.classes

-- The frames of tree `i` in the hand of the operation, by tree and number.
abbrev pub in_hand : List (ℕ × ℕ) → ℕ → ℕ
in_hand [] i = 0
in_hand ((k, n) ∷ rest) i = (if i == k then n else 0) + in_hand rest i

-- A slot names a tree of the memory.
pub record IsSlot (frames : ℕ) (r : Reserved) : Type 0 where
  pub bounded : r.free ≤ 4096
  pub inside : r.present ≡ true → r.start_row * 64 < frames

abbrev pub AllSlots : ℕ → Option (List Reserved) → Type 0
AllSlots frames none = Unit
AllSlots frames (some slots) = (x : ℕ) (r : Reserved) → get_elem? slots x ≡ some r → IsSlot frames r

-- The number of slots of a class: the outer `none` is no class, the inner one a class that is not
-- configured.
abbrev pub count_at : Option (Option (List Reserved)) → Option (Option ℕ)
count_at none = none
count_at (some slots) = some (count_of slots)

pub record IsLocal (frames : ℕ) (shape : ℕ → Option (Option ℕ)) (l : Locals) : Type 0 where
  pub shaped : (c : ℕ) → count_at (get_elem? l.classes c) ≡ shape c
  pub eight : (c : ℕ) → c < 8 → (k : Option ℕ) × (shape c ≡ some k)
  pub good :
      (c : ℕ) (slots : Option (List Reserved))
      → get_elem? l.classes c ≡ some slots
      → AllSlots frames slots

pub record IsArray (frames : ℕ) (s : Trees) : Type 0 where
  pub len : s.len ≡ (frames + 4095) / 4096
  pub entries_len : length s.entries ≡ s.len
  pub entries : (i : ℕ) (t : Tree) → get_elem? s.entries i ≡ some t → IsTree t
  pub default_lt : s.default_class < 8

-- The invariant, with `hand` in the hand of the operation.
pub record IsUpper (frames : ℕ) (shape : ℕ → Option (Option ℕ)) (hand : List (ℕ × ℕ)) (s : Llfree)
    : Type 0 where
  pub ready : IsReady frames s.lower
  pub array : IsArray frames s.trees
  pub slots : IsLocal frames shape s.local
  pub covered :
      (i : ℕ)
      → i < (frames + 4095) / 4096
      → counter s.trees i + held s.local i + in_hand hand i ≤ tree_free s.lower i
