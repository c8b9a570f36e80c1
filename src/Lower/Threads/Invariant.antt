-- ===== src/Lower/Threads/Invariant.antt =====
-- What holds of a child and its threads between any two accesses of src/lower.c.
use llfree_c.Base.{ℕ, ◌+◌, ◌^◌, ◌≤◌, ◌≡◌, Bool, true, false, some, List, get_elem?, ltb, total}
use llfree_c.Child.{Child}
use llfree_c.Bitfield.{Bitfield}
use llfree_c.Bitfield.Field.{IsField, ones}
use llfree_c.Bitfield.Frames.{frame_bit, in_run}
use llfree_c.Lower.Threads.{Worker, idle, counted, holds, freeing, cleared, whole, failed, IsRun}

-- The frames that are off the counter and whose bits are clear.
abbrev pub owed : Worker → ℕ
owed (counted order) = 2 ^ order
owed (cleared order) = 2 ^ order
owed _ = 0

-- The frames that are off the counter because of a thread.
abbrev pub uses : Worker → ℕ
uses (counted order) = 2 ^ order
uses (cleared order) = 2 ^ order
uses (holds order pos) = 2 ^ order
uses (freeing order pos) = 2 ^ order
uses whole = 512
uses _ = 0

-- The frames that a thread owns.
abbrev pub owns : Worker → ℕ → Bool
owns (holds order pos) x = in_run pos (2 ^ order) x
owns (freeing order pos) x = in_run pos (2 ^ order) x
owns whole x = ltb x 512
owns _ x = false

-- What a thread that owns a run relies on.
pub record Owner (f : Bitfield) (order pos : ℕ) : Type 0 where
  pub run : IsRun order pos
  pub marked : (x : ℕ) → in_run pos (2 ^ order) x ≡ true → frame_bit f x ≡ 1

abbrev pub IsSane : Child → Bitfield → Worker → Type 0
IsSane c f idle = Unit
IsSane c f (counted order) = order ≤ 6
IsSane c f (cleared order) = order ≤ 6
IsSane c f (holds order pos) = Owner f order pos
IsSane c f (freeing order pos) = Owner f order pos
IsSane c f whole = c.huge ≡ true
IsSane c f failed = ⊥

-- The counter, the bits and what the threads owe.
pub record Balance (c : Child) (f : Bitfield) (debt : ℕ) : Type 0 where
  pub field : IsField f
  pub counter : c.huge ≡ false → c.free + ones f + debt ≡ 512
  pub all_taken : c.huge ≡ true → (c.free ≡ 0) × (ones f ≡ 0) × (debt ≡ 0)

pub record Inv (c : Child) (f : Bitfield) (ws : List Worker) : Type 0 where
  pub balance : Balance c f (total owed ws)
  pub sane : (i : ℕ) (w : Worker) → get_elem? ws i ≡ some w → IsSane c f w
  pub unique :
      (i j x : ℕ) (w u : Worker)
      → get_elem? ws i ≡ some w
      → get_elem? ws j ≡ some u
      → owns w x ≡ true
      → owns u x ≡ true
      → i ≡ j

-- What a move of one thread does to the others: the debts balance, what they rely on still holds if
-- they own none of the mover's frames, and the mover gains no frame of theirs.
pub record Effect (c : Child) (f : Bitfield) (w : Worker) (c' : Child) (f' : Bitfield) (w' : Worker)
    (others : ℕ) : Type 0 where
  pub balance : Balance c' f' (others + owed w')
  pub sane : IsSane c' f' w'
  pub keeps :
      (u : Worker)
      → IsSane c f u
      → ((x : ℕ) → owns u x ≡ true → owns w x ≡ true → ⊥)
      → IsSane c' f' u
  pub gains :
      (x : ℕ) (u : Worker)
      → owns w' x ≡ true
      → owns w x ≡ false
      → IsSane c f u
      → owns u x ≡ true
      → ⊥
