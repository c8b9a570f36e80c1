-- ===== src/Lower/Init/Start.antt =====
-- `lower_init` of src/lower.c, where it clears the allocator.
use llfree_c.Base.{
  ℕ, ◌+◌, ◌-◌, ◌*◌, ◌/◌, ◌%◌, ◌^◌, ◌≤◌, ◌<◌, ◌≡◌, refl, ap, ◌∙◌, arith, Bool, true, false, leb, ltb,
  if◌then◌else◌, Bool-cases, inl, inr, some, Option, List, ◌>>=◌, length, ◌==◌, total-replicate,
  get_elem?-replicate, leb-true,
}
use llfree_c.Types.{Outcome, llfree_err, ok, init}
use llfree_c.Utils.{align_up, count_ones}
use llfree_c.Utils.Align.{align_up_lem}
use llfree_c.Utils.Words.{popcount-zero}
use llfree_c.Child.{Child}
use llfree_c.Bitfield.{Bitfield}
use llfree_c.Bitfield.Frames.{frame_bit}
use llfree_c.Lower.State.{Lower, lower_metadata_size}
use llfree_c.Lower.Init.{zero_field, lower_clear, lower_recover, lower_init, init_free, init_alloc}
use llfree_c.Lower.Init.Fields.{init_field-IsField, ones-init_field, frame_bit-init_field}
use llfree_c.Lower.Init.Loops.{
  IsCleared, share, entry_for, field_for, lower_clear_lem, share-le, child_count_lem,
}
use llfree_c.Lower.Single.{IsChild}
use llfree_c.Lower.Invariant.{IsLower}
use llfree_c.Lower.Spec.{is_free}
use llfree_c.Lower.Sets.{is_free-HasChild, is_free-behind}

-- A child with `free` frames at its start.
pub entry_for-IsChild : (free : ℕ) → free ≤ 512 → IsChild (entry_for free) (field_for free)
unfolding count_ones
entry_for-IsChild free h = elim (Bool-cases (free == 0)) [
  | inl none_free ↦ let zero_free : free ≡ 0 = ground arith in rw zero_free empty
  | inr some_free ↦ rw some_free (record {
    field = init_field-IsField free;
    counted = λ e. omega (arith, ones-init_field free h);
    whole = λ e. ground (arith, e);
  })
]
  where
    empty : IsChild (entry_for 0) zero_field
    empty = record {
      field = record { rows = refl; words = λ i v e. omega (arith, get_elem?-replicate 8 i 0 v e) };
      counted = λ e. ground (arith, e);
      whole = λ e. (refl, omega (arith, total-replicate count_ones 8 0, popcount-zero 64));
    }

-- A cleared allocator is sound.
IsLower-IsCleared : (l l' : Lower) (free_all : Bool) → IsCleared l l' free_all → IsLower l'
IsLower-IsCleared l l' free_all c j inside = elim (Bool-cases (ltb j ((l.frames + 511) / 512))) [
  | inl child ↦
      let has = c.children j (ground arith) in
      record {
        child = entry_for (share l.frames free_all j);
        at = has.child;
        kept = inl (
          field_for (share l.frames free_all j),
          has,
          entry_for-IsChild (share l.frames free_all j) (share-le l.frames j free_all),
        );
      }
  | inr behind ↦ record {
    child = entry_for 0;
    at = c.leftover j (ground arith) (omega (arith, c.frames));
    kept = inr (ground (arith, c.sized.fields_len, c.frames), refl);
  }
]

-- A frame of such a child is free when it is one of the first.
frame_of_entry :
    (free x : ℕ) (b : Bool)
    → (free == 0) ≡ false
    → x < 512
    → ltb x free ≡ b
    → (if free == 0 then false else (frame_bit (field_for free) x == 0)) ≡ b
frame_of_entry free x b some_free h place =
    rw some_free (ap (λ (t : ℕ). t == 0) (frame_bit-init_field free x h ∙ rw place refl) ∙ flip b)
  where
    flip : (b : Bool) → ((if b then 0 else 1) == 0) ≡ b
    flip true = refl
    flip false = refl

-- Its free frames are all of them, or none.
is_free-IsCleared :
    (l l' : Lower) (free_all : Bool)
    → IsCleared l l' free_all
    → (x : ℕ) → is_free l' x ≡ (if free_all then ltb x l.frames else false)
is_free-IsCleared l l' free_all c x = elim (Bool-cases (ltb (x / 512) ((l.frames + 511) / 512))) [
  | inl child ↦
      let i = x / 512 in
      let lt : i < (l.frames + 511) / 512 = ground arith in
      is_free-HasChild l' i x _ _ (c.children i lt) refl ∙ by_share free_all lt
  | inr behind ↦
      is_free-behind l' x (ground (arith, c.sized.fields_len, c.frames))
      ∙ by_frames free_all (ground arith)
]
  where
    by_share :
        (all : Bool)
        → x / 512 < (l.frames + 511) / 512
        → (if share l.frames all (x / 512) == 0
            then false
            else (frame_bit (field_for (share l.frames all (x / 512))) (x % 512) == 0))
          ≡ (if all then ltb x l.frames else false)
    by_share false lt = refl
    by_share true lt =
        frame_of_entry (share l.frames true (x / 512)) (x % 512) (ltb x l.frames) (ground arith)
          (omega arith) (ground arith)

    by_frames : (all : Bool) → l.frames ≤ x → false ≡ (if all then ltb x l.frames else false)
    by_frames false lt = refl
    by_frames true lt = ground arith

align_up-whole : (n : ℕ) → n < 2 ^ 57 → align_up (n * 64) 64 ≡ some (n * 64)
align_up-whole n h =
    let (u, done, whole, low, high) = align_up_lem (n * 64) 6 (omega arith) (omega arith) in
    let same : u ≡ n * 64 = omega arith in done ∙ ap some same

abbrev pub finish : Lower → Option (Lower × Outcome)
finish m = some (m, llfree_err ok)

-- What `lower_init` does once the sizes are checked.
abbrev pub dispatch : ℕ → Lower → Option (Lower × Outcome)
dispatch mode l =
    if mode == 0
    then (lower_clear true l >>= finish)
    else if mode == 1
    then (lower_clear false l >>= finish)
    else if mode == 4
    then some (l, llfree_err ok)
    else if mode == 2
    then (lower_recover l >>= finish)
    else some (l, llfree_err init)

-- The check of the sizes succeeds.
pub lower_init-dispatch :
    (fields : List Bitfield) (children : List Child) (frames mode : ℕ)
    → frames < 2 ^ 60
    → lower_init fields children frames mode
      ≡ dispatch mode (record { frames = frames; fields = fields; children = children })
unfolding lower_init lower_metadata_size
lower_init-dispatch fields children frames mode small =
    let l : Lower = record { frames = frames; fields = fields; children = children } in
    let n = (frames + 511) / 512 in
    let t = (n + 8 - 1) / 8 in
    let count : (frames + 512 - 1) / 512 ≡ n = omega arith in
    let bytes : 64 * n ≡ n * 64 = omega arith in
    let tree_bytes : 64 * t ≡ t * 64 = omega arith in
    let fits : leb (n * 64 + t * 64) (n * 64 + t * 64) ≡ true = leb-true _ _ (omega arith) in
    rw
      (
        child_count_lem l,
        count,
        bytes,
        tree_bytes,
        align_up-whole n (omega arith),
        align_up-whole t (omega arith),
        fits,
      )
      refl

dispatch-clear :
    (free_all : Bool) (l l' : Lower)
    → lower_clear free_all l ≡ some l'
    → dispatch (if free_all then init_free else init_alloc) l ≡ some (l', llfree_err ok)
dispatch-clear true l l' e = rw e refl
dispatch-clear false l l' e = rw e refl

-- On arrays of the sizes that the number of frames asks for, whatever they hold, and for fewer than
-- `2 ^ 60` frames, `lower_init` that frees or allocates all frames does not fail an assertion and
-- reports no error. It leaves a sound allocator with bits for all of its frames, in which exactly
-- the frames below the number of frames are free, or none.
pub lower_init_lem :
    (fields : List Bitfield) (children : List Child) (frames : ℕ) (free_all : Bool)
    → frames < 2 ^ 60
    → length fields ≡ (frames + 511) / 512
    → length children ≡ ((frames + 511) / 512 + 7) / 8 * 8
    → (l : Lower) × (lower_init fields children frames (if free_all then init_free else init_alloc)
        ≡ some (l, llfree_err ok))
      × (l.frames ≡ frames)
      × IsLower l
      × (length l.fields ≡ (frames + 511) / 512)
      × ((x : ℕ) → is_free l x ≡ (if free_all then ltb x frames else false))
lower_init_lem fields children frames free_all small fields_len children_len =
    let l : Lower = record { frames = frames; fields = fields; children = children } in
    let (l', cleared, c) =
      lower_clear_lem free_all l
        (record { fields_len = fields_len; children_len = children_len; small = small }) in
    (
      l',
      lower_init-dispatch fields children frames _ small ∙ dispatch-clear free_all l l' cleared,
      c.frames,
      IsLower-IsCleared l l' free_all c,
      omega (arith, c.sized.fields_len, c.frames),
      is_free-IsCleared l l' free_all c,
    )
