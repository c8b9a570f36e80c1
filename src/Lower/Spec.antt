-- ===== src/Lower/Spec.antt =====
-- What the lower allocator of src/lower.c promises, as a set of free frames: an allocation takes a
-- run of free frames out of the set, and freeing puts it in.
use llfree_c.Base.{
  ℕ, ◌/◌, ◌%◌, ◌≡◌, ◌⊎◌, Bool, true, false, ◌==◌, if◌then◌else◌, Option, some, get_elem?,
}
use llfree_c.Types.{Outcome, llfree_ok, llfree_err, memory}
use llfree_c.Child.{Child}
use llfree_c.Bitfield.{Bitfield}
use llfree_c.Bitfield.Frames.{frame_bit, in_run}
use llfree_c.Lower.State.{Lower, get_child}

-- A frame of a child is free when the child is not a huge page and its bit is clear.
abbrev pub free_in_child : Option Child → Option Bitfield → ℕ → Bool
free_in_child (some c) (some f) x = if c.huge then false else frame_bit f x == 0
free_in_child _ _ x = false

-- The free frames of the allocator.
unfoldable pub is_free : Lower → ℕ → Bool
is_free l x = free_in_child (get_child l (x / 512)) (get_elem? l.fields (x / 512)) (x % 512)

-- Every frame of the run is free.
abbrev pub AllFree : (ℕ → Bool) → ℕ → ℕ → Type 0
AllFree free frame n = (x : ℕ) → in_run frame n x ≡ true → free x ≡ true

-- The run was free, and now it is not; all other frames are as they were.
pub record Takes (free free' : ℕ → Bool) (frame n : ℕ) : Type 0 where
  pub was_free : AllFree free frame n
  pub now : (x : ℕ) → free' x ≡ (if in_run frame n x then false else free x)

-- The run was not free in any part, and now it is; all other frames are as they were.
pub record Returns (free free' : ℕ → Bool) (frame n : ℕ) : Type 0 where
  pub was_used : (x : ℕ) → in_run frame n x ≡ true → free x ≡ false
  pub now : (x : ℕ) → free' x ≡ (if in_run frame n x then true else free x)

-- The promise of an allocation of `n` frames from tree `tree`: it takes an aligned run of the tree,
-- or there is none and nothing changes.
abbrev pub Allocation : ℕ → ℕ → Lower → Lower × Outcome → Type 0
Allocation tree n l r =
    ((frame : ℕ) × (r.1 ≡ llfree_ok frame 0)
      × (frame / 4096 ≡ tree)
      × (frame % n ≡ 0)
      × Takes (is_free l) (is_free (r.0)) frame n)
    ⊎ ((r ≡ (l, llfree_err memory))
        × ((frame : ℕ) → frame / 4096 ≡ tree → frame % n ≡ 0 → AllFree (is_free l) frame n → ⊥))
