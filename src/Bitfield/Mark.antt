-- ===== src/Bitfield/Mark.antt =====
-- The atomic accesses to one row of src/bitfield.c, by the frames that they set or clear.
use mathlib.Core.Path.{subst}
use native.Mathlib.Nat.{mul-le-mul_right, mul-mod_left}
use llfree_c.Base.{
  Bool-cases, ◌⊎◌, ◌==◌, eq_of_==-true, ℕ, ◌+◌, ◌-◌, ◌*◌, ◌/◌, ◌%◌, ◌^◌, ◌≤◌, ◌<◌, ◌≡◌, inl, inr,
  refl, sym, ap, ◌∙◌, arith, Bool, true, false, if◌then◌else◌, some, none, get_elem?, set,
  lt_of_get_elem?,
}
use llfree_c.Base.Bits.{two_pow_pos}
use llfree_c.Types.{uint64_max}
use llfree_c.Utils.{shl64}
use llfree_c.Bitfield.{Bitfield, Hit, first_zeros_aligned, row_toggle}
use llfree_c.Bitfield.FirstZeros.Correct.{first_zeros_aligned_lem}
use llfree_c.Bitfield.Field.{IsField, ones, set_run, set_run-IsField, ones-set_run}
use llfree_c.Bitfield.Frames.{frame_bit, in_run, frame_bit-set_run, frame_bit-clear}
use llfree_c.Bitfield.Masks.{run, shl64-run}
use llfree_c.Bitfield.Claims.{Slot-of}
use llfree_c.Bitfield.SetNext.{groups, frame_of_run}
use llfree_c.Types.{llfree_err, ok, memory}
use llfree_c.Bitfield.{field_toggle}
use llfree_c.Bitfield.Toggle.{
  field_toggle_lem, bits_at, toggled, mask_eq, aligned_room, row_toggle-eq-toggled,
}
use llfree_c.Bitfield.Clear.{Freed, Freed-run, full_of_frames}

-- The run of `n` frames at `pos` was clear, and `f'` has it set.
pub record Marked (f f' : Bitfield) (pos n : ℕ) : Type 0 where
  pub field : IsField f'
  pub count : ones f' ≡ ones f + n
  pub was_clear : (x : ℕ) → in_run pos n x ≡ true → frame_bit f x ≡ 0
  pub now : (x : ℕ) → frame_bit f' x ≡ (if in_run pos n x then 1 else frame_bit f x)

Marked-run :
    (f : Bitfield) (row v w slot : ℕ)
    → IsField f
    → get_elem? f row ≡ some v
    → slot * w + w ≤ 64
    → bits_at w (slot * w) v ≡ 0
    → Marked f (set_run f row v w slot) (row * 64 + slot * w) w
Marked-run f row v w slot field at room clear = record {
  field = set_run-IsField f row v w slot field at room clear;
  count = ones-set_run f row v w slot at room clear;
  was_clear = frame_bit-clear f row v w slot at room clear;
  now = frame_bit-set_run f row v w slot at room clear;
}

-- A hit of `first_zeros_aligned` in a row.
pub Marked-first_zeros :
    (f : Bitfield) (row v order : ℕ) (h : Hit)
    → IsField f
    → order ≤ 6
    → get_elem? f row ≡ some v
    → first_zeros_aligned v order ≡ some (some h)
    → Marked f (set f row h.row) (row * 64 + h.pos) (2 ^ order)
      × (row * 64 + h.pos < 512)
      × ((row * 64 + h.pos) % 2 ^ order ≡ 0)
Marked-first_zeros f row v order h field small at hit =
    let w = 2 ^ order in
    let n = 2 ^ (6 - order) in
    let (found, ran, first) = first_zeros_aligned_lem v order (field.words row v at) small in
    let same : found ≡ some h = ground (arith, hit, ran) in
    elim first [
      | inr (e, full) ↦ ground (arith, same, e)
      | inl (slot, is_first, e) ↦
          let room : slot * w + w ≤ 64 =
            omega (arith, mul-le-mul_right w is_first.inside, groups order small) in
          let word : h.row ≡ v + (2 ^ w - 1) * 2 ^ (slot * w) = ground (arith, same, e) in
          let pos : h.pos ≡ slot * w = ground (arith, same, e) in
          let row_lt = lt_of_get_elem? f row v at in
          let marked = Marked-run f row v w slot field at room is_first.clear in
          let place = frame_of_run row n w slot (groups order small) in
          rw (word, pos)
            (
              marked,
              omega (arith, field.rows, two_pow_pos order),
              ap (λ (t : ℕ). t % w) place ∙ mul-mod_left (row * n + slot) w,
            )
    ]

-- The mask of `field_toggle` is the run.
toggle_mask-eq_run :
    (order pos : ℕ)
    → order ≤ 6
    → pos % 2 ^ order ≡ 0
    → shl64 (uint64_max / 2 ^ (64 - 2 ^ order)) (pos % 64) ≡ run (2 ^ order) (pos % 64)
toggle_mask-eq_run order pos h aligned =
    rw (mask_eq order h, shl64-run (2 ^ order) (pos % 64) (aligned_room order pos h aligned)) refl

module _ (f : Bitfield) (order pos v : ℕ) (field : IsField f) (h : order ≤ 6) (inside : pos < 512)
    (aligned : pos % 2 ^ order ≡ 0) (at : get_elem? f (pos / 64) ≡ some v) where
  toggles :
      (expected : Bool)
      → row_toggle v (shl64 (uint64_max / 2 ^ (64 - 2 ^ order)) (pos % 64)) expected
        ≡ toggled (2 ^ order) (pos % 64) v expected
  toggles expected =
      ap (λ (m : ℕ). row_toggle v m expected) (toggle_mask-eq_run order pos h aligned)
      ∙ row_toggle-eq-toggled (2 ^ order) (pos % 64) v expected (aligned_room order pos h aligned)
          (field.words (pos / 64) v at)

  -- The row and the group of the run.
  record Place : Type 0 where
    slot : ℕ
    bit : pos % 64 ≡ slot * 2 ^ order
    room : slot * 2 ^ order + 2 ^ order ≤ 64
    whole : pos / 64 * 64 + slot * 2 ^ order ≡ pos

  place : Place
  place =
      let s = Slot-of order pos h inside aligned in
      record {
        slot = s.slot;
        bit = omega (arith, s.at, s.room, two_pow_pos order);
        room = s.room;
        whole = omega (arith, s.at, s.room, two_pow_pos order);
      }

  -- A toggle that allocates found the run clear.
  pub Marked-row_toggle :
      (u : ℕ)
      → row_toggle v (shl64 (uint64_max / 2 ^ (64 - 2 ^ order)) (pos % 64)) false ≡ some u
      → Marked f (set f (pos / 64) u) pos (2 ^ order)
  Marked-row_toggle u done =
      let w = 2 ^ order in
      let p = place in
      let ran : toggled w (pos % 64) v false ≡ some u = sym (toggles false) ∙ done in
      let clear : bits_at w (pos % 64) v ≡ 0 = ground (arith, ran) in
      let word : u ≡ v + run w (pos % 64) = ground (arith, ran) in
      let clear' : bits_at w (p.slot * w) v ≡ 0 =
        ap (λ (b : ℕ). bits_at w b v) (sym p.bit) ∙ clear in
      let word' : v + run w (p.slot * w) ≡ u = ap (λ (b : ℕ). v + run w b) (sym p.bit) ∙ sym word in
      subst (λ q. Marked f (set f (pos / 64) u) q w) p.whole
        (subst (λ t. Marked f (set f (pos / 64) t) (pos / 64 * 64 + p.slot * w) w) word'
          (Marked-run f (pos / 64) v w p.slot field at p.room clear'))

  -- A toggle that frees found the run set.
  pub Freed-row_toggle :
      (u : ℕ)
      → row_toggle v (shl64 (uint64_max / 2 ^ (64 - 2 ^ order)) (pos % 64)) true ≡ some u
      → Freed f (set f (pos / 64) u) pos (2 ^ order)
  Freed-row_toggle u done =
      let w = 2 ^ order in
      let p = place in
      let ran : toggled w (pos % 64) v true ≡ some u = sym (toggles true) ∙ done in
      let full : bits_at w (pos % 64) v ≡ 2 ^ w - 1 = ground (arith, ran) in
      let word : u ≡ v - run w (pos % 64) = ground (arith, ran) in
      let full' : bits_at w (p.slot * w) v ≡ 2 ^ w - 1 =
        ap (λ (b : ℕ). bits_at w b v) (sym p.bit) ∙ full in
      let word' : v - run w (p.slot * w) ≡ u = ap (λ (b : ℕ). v - run w b) (sym p.bit) ∙ sym word in
      subst (λ q. Freed f (set f (pos / 64) u) q w) p.whole
        (subst (λ t. Freed f (set f (pos / 64) t) (pos / 64 * 64 + p.slot * w) w) word'
          (Freed-run f (pos / 64) v w p.slot field at p.room full'))

  -- It cannot fail where all frames of the run are set.
  pub row_toggle-succeeds :
      ((x : ℕ) → in_run pos (2 ^ order) x ≡ true → frame_bit f x ≡ 1)
      → row_toggle v (shl64 (uint64_max / 2 ^ (64 - 2 ^ order)) (pos % 64)) true ≡ none
      → ⊥
  row_toggle-succeeds all done =
      let w = 2 ^ order in
      let p = place in
      let ran : toggled w (pos % 64) v true ≡ none = sym (toggles true) ∙ done in
      let full =
        full_of_frames f (pos / 64) v w p.slot at p.room
          (λ x inside. all x (ap (λ (q : ℕ). in_run q w x) (sym p.whole) ∙ inside)) in
      let full' : bits_at w (pos % 64) v ≡ 2 ^ w - 1 = ap (λ (b : ℕ). bits_at w b v) p.bit ∙ full in
      ground (arith, ran, full')

-- `field_toggle` allocates the run when all of it is clear, and otherwise changes nothing.
pub field_toggle-marks :
    (f : Bitfield) (pos order : ℕ)
    → IsField f
    → order ≤ 6
    → pos < 512
    → pos % 2 ^ order ≡ 0
    → ((f' : Bitfield) × (field_toggle f pos order false ≡ some (f', llfree_err ok))
        × Marked f f' pos (2 ^ order))
      ⊎ (field_toggle f pos order false ≡ some (f, llfree_err memory))
field_toggle-marks f pos order field h inside aligned =
    let w = 2 ^ order in
    let (v, at, done) = field_toggle_lem f pos order false field h inside aligned in
    let p = place f order pos v field h inside aligned at in
    elim (Bool-cases (bits_at w (pos % 64) v == 0)) [
      | inl clear ↦
          let eq : bits_at w (p.slot * w) v ≡ 0 =
            ap (λ (b : ℕ). bits_at w b v) (sym p.bit) ∙ eq_of_==-true _ _ clear in
          let word : v + run w (p.slot * w) ≡ v + run w (pos % 64) =
            ap (λ (b : ℕ). v + run w b) (sym p.bit) in
          inl (
            set f (pos / 64) (v + run w (pos % 64)),
            done ∙ rw clear refl,
            subst (λ q. Marked f (set f (pos / 64) (v + run w (pos % 64))) q w) p.whole
                (subst (λ t. Marked f (set f (pos / 64) t) (pos / 64 * 64 + p.slot * w) w) word
                  (Marked-run f (pos / 64) v w p.slot field at p.room eq)),
          )
      | inr part ↦ inr (done ∙ rw part refl)
    ]
