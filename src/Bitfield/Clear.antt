-- ===== src/Bitfield/Clear.antt =====
-- `field_toggle` of src/bitfield.c where the caller frees a run inside a row, by the frames.
use mathlib.Core.Path.{subst, ap₂}
use llfree_c.Base.{
  ℕ, ◌+◌, ◌-◌, ◌*◌, ◌/◌, ◌%◌, ◌^◌, ◌≤◌, ◌<◌, ◌≡◌, ◌⊎◌, inl, inr, refl, sym, ap, ◌∙◌, arith, true,
  if◌then◌else◌, some, get_elem?, set, set-set, set_of_get_elem?, get_elem?-set_self,
  lt_of_get_elem?, Bool-cases, ◌==◌,
}
use llfree_c.Base.Bits.{two_pow_pos}
use llfree_c.Types.{llfree_err, ok, memory}
use llfree_c.Bitfield.{Bitfield, field_toggle}
use llfree_c.Bitfield.Field.{IsField, ones, set_run, set-IsField, ones-set_run}
use llfree_c.Bitfield.Frames.{frame_bit, in_run, frame_bit-at, frame_bit-set_run, frame_bit-clear}
use llfree_c.Bitfield.Masks.{run}
use llfree_c.Bitfield.Bits.{bit, run-off, ones_of_bits}
use llfree_c.Bitfield.Claims.{Slot-of}
use llfree_c.Bitfield.Toggle.{bits_at, toggled, toggle_result, field_toggle_lem}

-- The run of `n` frames at `pos` was set, and `f'` has it clear.
pub record Freed (f f' : Bitfield) (pos n : ℕ) : Type 0 where
  pub field : IsField f'
  pub count : ones f ≡ ones f' + n
  pub was_set : (x : ℕ) → in_run pos n x ≡ true → frame_bit f x ≡ 1
  pub now : (x : ℕ) → frame_bit f' x ≡ (if in_run pos n x then 0 else frame_bit f x)

-- A run of a row that is set, taken off.
pub Freed-run :
    (f : Bitfield) (row v w slot : ℕ)
    → IsField f
    → get_elem? f row ≡ some v
    → slot * w + w ≤ 64
    → bits_at w (slot * w) v ≡ 2 ^ w - 1
    → Freed f (set f row (v - run w (slot * w))) (row * 64 + slot * w) w
Freed-run f row v w slot field at room full =
    let word = field.words row v at in
    let (clear, back) = run-off w (slot * w) v room word full in
    let u = v - run w (slot * w) in
    let f' = set f row u in
    let at' : get_elem? f' row ≡ some u = get_elem?-set_self f row u (lt_of_get_elem? f row v at) in
    let again : set_run f' row u w slot ≡ f =
      set-set f row u (u + run w (slot * w)) ∙ ap (set f row) back ∙ set_of_get_elem? f row v at in
    let bits : (x : ℕ)
        → frame_bit f x ≡ (if in_run (row * 64 + slot * w) w x then 1 else frame_bit f' x) =
      λ x.
        sym (ap (λ (t : Bitfield). frame_bit t x) again)
        ∙ frame_bit-set_run f' row u w slot at' room clear x in
    record {
      field = set-IsField f row u field (omega arith);
      count = sym (ap ones again) ∙ ones-set_run f' row u w slot at' room clear;
      was_set = λ x inside. bits x ∙ rw inside refl;
      now = λ x. elim (Bool-cases (in_run (row * 64 + slot * w) w x)) [
        | inl inside ↦ rw inside (frame_bit-clear f' row u w slot at' room clear x inside)
        | inr outside ↦ rw outside (sym (bits x ∙ rw outside refl))
      ];
    }

-- A run of a row whose frames are all set.
pub full_of_frames :
    (f : Bitfield) (row v w slot : ℕ)
    → get_elem? f row ≡ some v
    → slot * w + w ≤ 64
    → ((x : ℕ) → in_run (row * 64 + slot * w) w x ≡ true → frame_bit f x ≡ 1)
    → bits_at w (slot * w) v ≡ 2 ^ w - 1
full_of_frames f row v w slot at room all = ones_of_bits w (slot * w) v (λ b from inside.
    let x = row * 64 + b in
    let here : x / 64 ≡ row = omega arith in
    let place : x % 64 ≡ b = omega arith in
    let old : get_elem? f (x / 64) ≡ some v = rw here at in
    sym (frame_bit-at f x v old ∙ ap (bit v) place) ∙ all x (ground arith))

-- `field_toggle` frees the run when all of it is set, and otherwise changes nothing.
pub field_toggle-frees :
    (f : Bitfield) (pos order : ℕ)
    → IsField f
    → order ≤ 6
    → pos < 512
    → pos % 2 ^ order ≡ 0
    → ((f' : Bitfield) × (field_toggle f pos order true ≡ some (f', llfree_err ok))
        × Freed f f' pos (2 ^ order))
      ⊎ ((field_toggle f pos order true ≡ some (f, llfree_err memory))
          × (((x : ℕ) → in_run pos (2 ^ order) x ≡ true → frame_bit f x ≡ 1) → ⊥))
field_toggle-frees f pos order field h inside aligned =
    let w = 2 ^ order in
    let s = Slot-of order pos h inside aligned in
    let (v, at, done) = field_toggle_lem f pos order true field h inside aligned in
    let row : pos / 64 ≡ s.row = omega (arith, s.at, s.room, two_pow_pos order) in
    let place : pos % 64 ≡ s.slot * w = omega (arith, s.at, s.room, two_pow_pos order) in
    let old : get_elem? f s.row ≡ some v = ap (get_elem? f) (sym row) ∙ at in
    let result : field_toggle f pos order true
        ≡ some (toggle_result f s.row (toggled w (s.slot * w) v true)) =
      done ∙ ap₂ (λ (r p : ℕ). some (toggle_result f r (toggled w p v true))) row place in
    elim (Bool-cases (bits_at w (s.slot * w) v == 2 ^ w - 1)) [
      | inl full ↦
          let eq : bits_at w (s.slot * w) v ≡ 2 ^ w - 1 = ground arith in
          inl (
            set f s.row (v - run w (s.slot * w)),
            result ∙ rw full refl,
            subst (λ p. Freed f (set f s.row (v - run w (s.slot * w))) p w) s.at
                (Freed-run f s.row v w s.slot field old s.room eq),
          )
      | inr part ↦ inr (
        result ∙ rw part refl,
        λ all.
            let eq =
              full_of_frames f s.row v w s.slot old s.room
                (λ x run. all x (ap (λ (p : ℕ). in_run p w x) (sym s.at) ∙ run)) in
            ground (arith, part, eq),
      )
    ]
