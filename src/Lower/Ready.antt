-- ===== src/Lower/Ready.antt =====
-- What the lower allocator of src/lower.c promises to its caller: it is ready for requests, and a
-- request takes a run of free frames of one tree, on the bits as on the counters, or changes nothing.
pub mod Gets
pub mod GetsAt
pub mod Puts
use llfree_c.Base.{
  ℕ, ◌+◌, ◌/◌, ◌%◌, ◌^◌, ◌≤◌, ◌<◌, ◌≡◌, ◌⊎◌, false, Option, none, ◌==◌, if◌then◌else◌, some, length,
}
use llfree_c.Types.{Outcome, llfree_ok, llfree_err, ok, memory}
use llfree_c.Lower.State.{Lower}
use llfree_c.Lower.Invariant.{IsLower}
use llfree_c.Lower.Spec.{is_free, Takes, Returns}
use llfree_c.Lower.Counts.{tree_free}

-- Ready for requests on `frames` frames.
pub record IsReady (frames : ℕ) (l : Lower) : Type 0 where
  pub size : l.frames ≡ frames
  pub sound : IsLower l
  pub bits : length l.fields ≡ (frames + 511) / 512
  pub ends : (x : ℕ) → frames ≤ x → is_free l x ≡ false

-- A run of `n` frames of tree `tree` went from free to allocated.
pub record Taken (frames : ℕ) (l l' : Lower) (tree n frame : ℕ) : Type 0 where
  pub ready : IsReady frames l'
  pub takes : Takes (is_free l) (is_free l') frame n
  pub frame_lt : frame < frames
  pub tree_at : frame / 4096 ≡ tree
  pub aligned : frame % n ≡ 0
  pub counters : (t : ℕ) → tree_free l' t + (if t == tree then n else 0) ≡ tree_free l t

-- The frame that a request names, if it names one.
abbrev pub IsWanted : Option ℕ → ℕ → Type 0
IsWanted none frame = Unit
IsWanted (some f) frame = frame ≡ f

-- The end of a request for `n` frames of a tree.
abbrev pub Gets : ℕ → Option ℕ → ℕ → ℕ → Lower → Lower × Outcome → Type 0
Gets frames wanted tree n l r =
    ((frame : ℕ) × (r.1 ≡ llfree_ok frame 0)
      × Taken frames l r.0 tree n frame
      × IsWanted wanted frame)
    ⊎ (r ≡ (l, llfree_err memory))

-- A run of `n` frames at `frame` went from allocated to free.
pub record Put (frames : ℕ) (l l' : Lower) (n frame : ℕ) : Type 0 where
  pub ready : IsReady frames l'
  pub returns : Returns (is_free l) (is_free l') frame n
  pub counters : (t : ℕ) → tree_free l' t ≡ tree_free l t + (if t == frame / 4096 then n else 0)
