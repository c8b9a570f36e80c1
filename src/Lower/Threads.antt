-- ===== src/Lower/Threads.antt =====
-- src/lower.c with several threads on one child, for the runs that lie inside a row and for the child
-- as a huge page: the order of the atomic accesses of `lower_get`, `lower_get_at` and `lower_put` is
-- the only thing that a thread decides. A thread may try any row next, and may give up its search at
-- any time, so that every interleaving of the code is one of these.
pub mod Invariant
pub mod Balance
pub mod Effects
pub mod Moves
pub mod Safety
use llfree_c.Base.{
  ℕ, ◌+◌, ◌-◌, ◌*◌, ◌/◌, ◌%◌, ◌^◌, ◌≤◌, ◌<◌, ◌≡◌, Bool, true, false, some, none, List, get_elem?,
  set,
}
use llfree_c.Utils.{shl64}
use llfree_c.Types.{uint64_max}
use llfree_c.Child.{Child, child_eq, child_dec, child_inc}
use llfree_c.Bitfield.{Bitfield, Hit, first_zeros_aligned, row_toggle}
use llfree_c.Lower.Undo.{all_free, allocated}

-- Where a thread stands between two accesses.
pub data Worker : Type 0 where
  idle : Worker
  counted : (order : ℕ) → Worker  -- the counter is down, and no bit is set yet
  holds : (order pos : ℕ) → Worker  -- owns the run of `2 ^ order` frames at `pos`
  freeing : (order pos : ℕ) → Worker  -- `lower_put` has read an entry that is not huge
  cleared : (order : ℕ) → Worker  -- the bits are cleared, and the counter is not up yet
  whole : Worker  -- owns the child as a huge page
  failed : Worker  -- an assertion has failed, or a rightful call has got an error

-- The mask of `field_toggle` for a run inside a row.
abbrev pub toggle_mask : ℕ → ℕ → ℕ
toggle_mask order pos = shl64 (uint64_max / 2 ^ (64 - 2 ^ order)) (pos % 64)

-- An aligned run of the child.
pub record IsRun (order pos : ℕ) : Type 0 where
  pub order_le : order ≤ 6
  pub inside : pos < 512
  pub aligned : pos % 2 ^ order ≡ 0

-- One access of one thread to the entry `c` and the bits `f` of the child.
pub data Move (c : Child) (f : Bitfield) : Worker → Child → Bitfield → Worker → Type 0 where
  take :
      {order : ℕ} {d : Child}
      → order ≤ 6
      → child_dec c order ≡ some d
      → Move c f idle d f (counted order)
  refuse : (order : ℕ) → child_dec c order ≡ none → Move c f idle c f idle
  mark :
      {order : ℕ} (row v : ℕ) (h : Hit)
      → get_elem? f row ≡ some v
      → first_zeros_aligned v order ≡ some (some h)
      → Move c f (counted order) c (set f row h.row) (holds order (row * 64 + h.pos))
  next_row :
      {order : ℕ} (row v : ℕ)
      → get_elem? f row ≡ some v
      → first_zeros_aligned v order ≡ some none
      → Move c f (counted order) c f (counted order)
  mark_at :
      {order pos : ℕ} (v u : ℕ)
      → IsRun order pos
      → get_elem? f (pos / 64) ≡ some v
      → row_toggle v (toggle_mask order pos) false ≡ some u
      → Move c f (counted order) c (set f (pos / 64) u) (holds order pos)
  give_up : {order : ℕ} {d : Child} → child_inc c order ≡ some d → Move c f (counted order) d f idle
  give_up_fails : {order : ℕ} → child_inc c order ≡ none → Move c f (counted order) c f failed
  load : {order pos : ℕ} → c.huge ≡ false → Move c f (holds order pos) c f (freeing order pos)
  load_huge : {order pos : ℕ} → c.huge ≡ true → Move c f (holds order pos) c f failed
  clear :
      {order pos : ℕ} (v u : ℕ)
      → get_elem? f (pos / 64) ≡ some v
      → row_toggle v (toggle_mask order pos) true ≡ some u
      → Move c f (freeing order pos) c (set f (pos / 64) u) (cleared order)
  clear_fails :
      {order pos : ℕ} (v : ℕ)
      → get_elem? f (pos / 64) ≡ some v
      → row_toggle v (toggle_mask order pos) true ≡ none
      → Move c f (freeing order pos) c f failed
  count : {order : ℕ} {d : Child} → child_inc c order ≡ some d → Move c f (cleared order) d f idle
  count_fails : {order : ℕ} → child_inc c order ≡ none → Move c f (cleared order) c f failed
  take_whole : child_eq c all_free ≡ true → Move c f idle allocated f whole
  put_whole : child_eq c allocated ≡ true → Move c f whole all_free f idle
  put_whole_fails : child_eq c allocated ≡ false → Move c f whole c f failed

-- A child and the threads on it.
pub record World : Type 0 where
  pub child : Child
  pub bits : Bitfield
  pub workers : List Worker

pub data Step (s : World) : World → Type 0 where
  pick :
      (i : ℕ) {w w' : Worker} {c' : Child} {f' : Bitfield}
      → get_elem? s.workers i ≡ some w
      → Move s.child s.bits w c' f' w'
      → Step s (record { child = c'; bits = f'; workers = set s.workers i w' })

pub data Reach (s : World) : World → Type 0 where
  here : Reach s s
  later : {t u : World} → Reach s t → Step t u → Reach s u
