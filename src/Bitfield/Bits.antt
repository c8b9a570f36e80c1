-- ===== src/Bitfield/Bits.antt =====
-- The single bits of a word, and what the marking and the clearing of a run in src/bitfield.c make
-- of them.
use native.Mathlib.Nat.{
  mul-add-mod_self_right, mod-eq_of_lt, add-mul-div_right, add-mul-div_left, div-add-mod, pow-suc,
  mul-mod_left, mul-mod_right, div-eq_of_lt,
}
use llfree_c.Base.{
  ℕ, zero, suc, ◌+◌, ◌-◌, ◌*◌, ◌/◌, ◌%◌, ◌^◌, ◌≤◌, ◌<◌, ◌≡◌, refl, sym, ap, ◌∙◌, arith, ◌&&◌, leb,
  ltb, if◌then◌else◌, Bool-cases, inl, inr,
}
use llfree_c.Base.Bits.{two_pow_pos, two_pow_add, div_two_pow_add, half_power}
use llfree_c.Bitfield.Masks.{run, around}

abbrev pub bit : ℕ → ℕ → ℕ
bit v b = v / 2 ^ b % 2

bit-add_above : (v x p b : ℕ) → b < p → bit (v + x * 2 ^ p) b ≡ bit v b
bit-add_above v x p b h =
    let r = p - b - 1 in
    let width : p ≡ r + (1 + b) = omega arith in
    let power : 2 ^ p ≡ 2 ^ r * (2 * 2 ^ b) = omega (
      arith,
      ap (λ (t : ℕ). 2 ^ t) width,
      two_pow_add r (1 + b),
      ap (λ (t : ℕ). 2 ^ r * t) (two_pow_add 1 b),
    ) in
    let scaled = ap (λ (t : ℕ). x * t) power in
    let above : x * 2 ^ p ≡ x * 2 ^ r * 2 * 2 ^ b = omega arith in
    rw (above, add-mul-div_right v (x * 2 ^ r * 2) (two_pow_pos b)) (omega arith)

bit-from : (v p j : ℕ) → bit v (p + j) ≡ bit (v / 2 ^ p) j
bit-from v p j = rw (div_two_pow_add v p j) refl

-- A run of ones, and a run of zeros.
pub bit-ones : (w y j : ℕ) → j < w → bit (2 ^ w * y + (2 ^ w - 1)) j ≡ 1
bit-ones zero y j h = absurd (omega arith)
bit-ones (suc w) y zero h =
    omega (arith, pow-suc 2 w, two_pow_pos w, ap (λ (t : ℕ). t * y) (pow-suc 2 w))
bit-ones (suc w) y (suc j) h =
    let half : (2 ^ suc w * y + (2 ^ suc w - 1)) / 2 ≡ 2 ^ w * y + (2 ^ w - 1) =
      omega (arith, pow-suc 2 w, two_pow_pos w, ap (λ (t : ℕ). t * y) (pow-suc 2 w)) in
    rw (half_power j (2 ^ suc w * y + (2 ^ suc w - 1)), half) (bit-ones w y j (omega arith))

bit-zeros : (w d j : ℕ) → d % 2 ^ w ≡ 0 → j < w → bit d j ≡ 0
bit-zeros w d j e h =
    let y = d / 2 ^ w in
    let whole : d ≡ 0 + y * 2 ^ w = omega (arith, div-add-mod d (2 ^ w)) in
    let low : bit (0 + y * 2 ^ w) j ≡ bit 0 j = bit-add_above 0 y w j h in
    ap (λ (t : ℕ). bit t j) whole ∙ low ∙ omega arith

-- The first `w` bits are zero when each of them is.
pub mod-zero_of_bits : (w d : ℕ) → ((j : ℕ) → j < w → bit d j ≡ 0) → d % 2 ^ w ≡ 0
mod-zero_of_bits zero d h = omega arith
mod-zero_of_bits (suc w) d h =
    let upper : d / 2 % 2 ^ w ≡ 0 =
      mod-zero_of_bits w (d / 2) (λ j lt. rw (← half_power j d) (h (suc j) (omega arith))) in
    let lowest : d / 1 % 2 ≡ 0 = h zero (omega arith) in
    let y = d / 2 / 2 ^ w in
    let half : d / 2 ≡ y * 2 ^ w = omega (arith, div-add-mod (d / 2) (2 ^ w)) in
    let power = ap (λ (t : ℕ). y * t) (pow-suc 2 w) in
    let even : d ≡ y * 2 ^ suc w = omega arith in
    ap (λ (t : ℕ). t % 2 ^ suc w) even ∙ mul-mod_left y (2 ^ suc w)

-- The part of a word from a clear run on, with the run set.
run-div :
    (w p v : ℕ)
    → v / 2 ^ p % 2 ^ w ≡ 0
    → (v + run w p) / 2 ^ p ≡ 2 ^ w * (v / 2 ^ p / 2 ^ w) + (2 ^ w - 1)
run-div w p v clear =
    let above : v / 2 ^ p ≡ 2 ^ w * (v / 2 ^ p / 2 ^ w) =
      omega (arith, div-add-mod (v / 2 ^ p) (2 ^ w)) in
    omega (arith, add-mul-div_right v (2 ^ w - 1) (two_pow_pos p))

run-div_above : (w p v : ℕ) → v / 2 ^ p % 2 ^ w ≡ 0 → (v + run w p) / 2 ^ (p + w) ≡ v / 2 ^ (p + w)
run-div_above w p v clear =
    let y = v / 2 ^ p / 2 ^ w in
    let none_left : (2 ^ w - 1) / 2 ^ w ≡ 0 = div-eq_of_lt (omega (arith, two_pow_pos w)) in
    let order : 2 ^ w * y + (2 ^ w - 1) ≡ (2 ^ w - 1) + 2 ^ w * y = omega arith in
    rw
      (
        div_two_pow_add (v + run w p) p w,
        div_two_pow_add v p w,
        run-div w p v clear,
        order,
        add-mul-div_left (2 ^ w - 1) y (two_pow_pos w),
      )
      (omega arith)

-- The bits of a word with the run of `w` bits at `p` set.
pub bit-run :
    (w p v b : ℕ)
    → v / 2 ^ p % 2 ^ w ≡ 0
    → bit (v + run w p) b ≡ (if leb p b && ltb b (p + w) then 1 else bit v b)
bit-run w p v b clear = elim (Bool-cases (leb p b)) [
  | inr below ↦ rw below (bit-add_above v (2 ^ w - 1) p b (ground arith))
  | inl from ↦ elim (Bool-cases (ltb b (p + w))) [
    | inl inside ↦
        let at : b ≡ p + (b - p) = ground arith in
        let short : b - p < w = ground arith in
        rw (from, inside)
          (ap (bit (v + run w p)) at
            ∙ bit-from (v + run w p) p (b - p)
            ∙ ap (λ (t : ℕ). bit t (b - p)) (run-div w p v clear)
            ∙ bit-ones w (v / 2 ^ p / 2 ^ w) (b - p) short)
    | inr above ↦
        let at : b ≡ p + w + (b - (p + w)) = ground arith in
        rw (from, above)
          (ap (bit (v + run w p)) at
            ∙ bit-from (v + run w p) (p + w) (b - (p + w))
            ∙ ap (λ (t : ℕ). bit t (b - (p + w))) (run-div_above w p v clear)
            ∙ sym (bit-from v (p + w) (b - (p + w)))
            ∙ sym (ap (bit v) at))
  ]
]

-- The bits of a clear run, and a run whose bits are clear.
pub bit-digit : (w p v b : ℕ) → v / 2 ^ p % 2 ^ w ≡ 0 → p ≤ b → b < p + w → bit v b ≡ 0
bit-digit w p v b clear from inside =
    let at : b ≡ p + (b - p) = omega arith in
    ap (bit v) at ∙ bit-from v p (b - p) ∙ bit-zeros w (v / 2 ^ p) (b - p) clear (omega arith)

pub digit_of_bits :
    (w p v : ℕ) → ((b : ℕ) → p ≤ b → b < p + w → bit v b ≡ 0) → v / 2 ^ p % 2 ^ w ≡ 0
digit_of_bits w p v h =
    mod-zero_of_bits w (v / 2 ^ p)
      (λ j lt. sym (bit-from v p j) ∙ h (p + j) (omega arith) (omega arith))

-- A run that is set can be taken off, and is then clear.
pub run-off :
    (w p v : ℕ)
    → p + w ≤ 64
    → v < 2 ^ 64
    → v / 2 ^ p % 2 ^ w ≡ 2 ^ w - 1
    → ((v - run w p) / 2 ^ p % 2 ^ w ≡ 0) × (v - run w p + run w p ≡ v)
run-off w p v room h full =
    let a = around w p v room h in
    let ones = ap (λ (t : ℕ). 2 ^ p * t) (a.mid_eq ∙ full) in
    let parts : v - run w p ≡ a.lo + 2 ^ p * (2 ^ w * a.hi) = omega (arith, a.whole) in
    let upper : (v - run w p) / 2 ^ p ≡ 2 ^ w * a.hi =
      ap (λ (t : ℕ). t / 2 ^ p) parts
      ∙ add-mul-div_left a.lo (2 ^ w * a.hi) (two_pow_pos p)
      ∙ ap (λ (t : ℕ). t + 2 ^ w * a.hi) (div-eq_of_lt a.lo_lt)
      ∙ omega arith in
    (ap (λ (t : ℕ). t % 2 ^ w) upper ∙ mul-mod_right (2 ^ w) a.hi, omega (arith, a.whole))

-- The first `w` bits are ones when each of them is.
mod-ones_of_bits : (w d : ℕ) → ((j : ℕ) → j < w → bit d j ≡ 1) → d % 2 ^ w ≡ 2 ^ w - 1
mod-ones_of_bits zero d h = omega arith
mod-ones_of_bits (suc w) d h =
    let upper : d / 2 % 2 ^ w ≡ 2 ^ w - 1 =
      mod-ones_of_bits w (d / 2) (λ j lt. rw (← half_power j d) (h (suc j) (omega arith))) in
    let lowest : d / 1 % 2 ≡ 1 = h zero (omega arith) in
    let y = d / 2 / 2 ^ w in
    let half : d / 2 ≡ y * 2 ^ w + (2 ^ w - 1) = omega (arith, div-add-mod (d / 2) (2 ^ w)) in
    let power = ap (λ (t : ℕ). y * t) (pow-suc 2 w) in
    let whole : d ≡ y * 2 ^ suc w + (2 ^ suc w - 1) = omega (arith, two_pow_pos w, pow-suc 2 w) in
    ap (λ (t : ℕ). t % 2 ^ suc w) whole
    ∙ mul-add-mod_self_right y (2 ^ suc w) (2 ^ suc w - 1)
    ∙ mod-eq_of_lt (omega (arith, two_pow_pos (suc w)))

pub ones_of_bits :
    (w p v : ℕ) → ((b : ℕ) → p ≤ b → b < p + w → bit v b ≡ 1) → v / 2 ^ p % 2 ^ w ≡ 2 ^ w - 1
ones_of_bits w p v h =
    mod-ones_of_bits w (v / 2 ^ p)
      (λ j lt. sym (bit-from v p j) ∙ h (p + j) (omega arith) (omega arith))
