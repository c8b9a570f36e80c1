-- ===== src/Bitfield/FirstZeros/Spec.antt =====
-- The reference: a word as digits of `w` bits, and the place of the first digit that is zero.
use native.Mathlib.Nat.{mod-lt, mod-eq_of_lt, div-add-mod}
use mathlib.Core.Path.{ap, ap₂, ◌≡⟨◌⟩◌, ◌∎}
use llfree_c.Base.{
  ℕ, zero, suc, ◌+◌, ◌-◌, ◌*◌, ◌/◌, ◌%◌, ◌^◌, ◌<◌, ◌≡◌, ◌≢◌, ◌⊎◌, inl, inr, refl, arith, ◌==◌,
  if◌then◌else◌, Bool-cases,
}
use Prim.Native.Nat.{bit_or, ◌≤◌}
use llfree_c.Base.Bits.{two_pow_pos, two_pow_le, two_pow_add, div_two_pow_add, bit_or_clear}
use llfree_c.Utils.{shl64}

-- The first multiple of `w` at which `w` bits are clear, or `w * n` when none of `n` digits is zero.
unfoldable pub first_zero_digit : ℕ → ℕ → ℕ → ℕ
first_zero_digit w zero v = 0
first_zero_digit w (suc n) v =
    let above = w + first_zero_digit w n (v / 2 ^ w) in if v % 2 ^ w == 0 then 0 else above

-- The `j`th aligned group of `w` bits of a word.
abbrev pub digit : ℕ → ℕ → ℕ → ℕ
digit w v j = v / 2 ^ (j * w) % 2 ^ w

-- Of `n` groups of `w` bits, number `slot` is the first that is clear.
pub record FirstSlot (w n v slot : ℕ) : Type 0 where
  pub inside : slot < n
  pub clear : digit w v slot ≡ 0
  pub earlier : (j : ℕ) → j < slot → digit w v j ≢ 0

abbrev pub IsFull : ℕ → ℕ → ℕ → Type 0
IsFull w n v = (j : ℕ) → j < n → digit w v j ≢ 0

digit-zero : (w v : ℕ) → digit w v 0 ≡ v % 2 ^ w
digit-zero w v =
    let none_left : 0 * w ≡ 0 = omega arith in
    let whole : v / 2 ^ 0 ≡ v = omega arith in rw (none_left, whole) refl

digit-suc : (w v j : ℕ) → digit w v (suc j) ≡ digit w (v / 2 ^ w) j
digit-suc w v j =
    let width : suc j * w ≡ w + j * w = omega arith in rw (width, div_two_pow_add v w (j * w)) refl

IsFull-suc : (w n v : ℕ) → v % 2 ^ w ≢ 0 → IsFull w n (v / 2 ^ w) → IsFull w (suc n) v
IsFull-suc w n v low high zero h = rw (digit-zero w v) low
IsFull-suc w n v low high (suc j) h = rw (digit-suc w v j) (high j (omega arith))

-- What the search of the digits gives, as a place that may be `n * w`.
abbrev Searched : ℕ → ℕ → ℕ → ℕ → Type 0
Searched w n v p =
    ((slot : ℕ) × FirstSlot w n v slot × (p ≡ slot * w)) ⊎ (IsFull w n v × (p ≡ n * w))

Searched-suc :
    (w n v p : ℕ) → v % 2 ^ w ≢ 0 → Searched w n (v / 2 ^ w) p → Searched w (suc n) v (w + p)
Searched-suc w n v p low (inl (slot, first, at)) =
    let deeper : FirstSlot w (suc n) v (suc slot) = record {
      inside = omega (arith, first.inside);
      clear = rw (digit-suc w v slot) first.clear;
      earlier = IsFull-suc w slot v low first.earlier;
    } in
    inl (suc slot, deeper, omega arith)
Searched-suc w n v p low (inr (all, at)) = inr (IsFull-suc w n v low all, omega arith)

pub first_zero_digit_lem : (w n v : ℕ) → Searched w n v (first_zero_digit w n v)
unfolding first_zero_digit
first_zero_digit_lem w zero v = inr (λ j h. absurd (omega arith), omega arith)
first_zero_digit_lem w (suc n) v =
    let ih = first_zero_digit_lem w n (v / 2 ^ w) in
    elim (Bool-cases (v % 2 ^ w == 0)) [
      | inl empty ↦
          let first : FirstSlot w (suc n) v 0 = record {
            inside = omega arith;
            clear = rw (digit-zero w v) (ground arith);
            earlier = λ j h. absurd (omega arith);
          } in
          rw empty (inl (0, first, omega arith))
      | inr full ↦
          let low : v % 2 ^ w ≢ 0 = ground arith in
          rw full (Searched-suc w n v (first_zero_digit w n (v / 2 ^ w)) low ih)
    ]

pub pred-one : (w : ℕ) → 2 ^ w ≡ (2 ^ w - 1) + 1
pred-one w = omega (arith, two_pow_pos w)

-- Marking a clear group carries nothing and stays inside the word.
pub set-slot :
    (w v slot : ℕ)
    → slot * w + w ≤ 64
    → digit w v slot ≡ 0
    → bit_or v (shl64 (2 ^ w - 1) (slot * w)) ≡ v + (2 ^ w - 1) * 2 ^ (slot * w)
set-slot w v slot room clear =
    let p = slot * w in
    let lo = v % 2 ^ p in
    let y = v / 2 ^ p / 2 ^ w in
    let low : lo < 2 ^ p = mod-lt v (two_pow_pos p) in
    let ones_lt : 2 ^ w - 1 < 2 ^ w = omega (arith, two_pow_pos w) in
    let above : v / 2 ^ p ≡ 2 ^ w * y = omega (arith, div-add-mod (v / 2 ^ p) (2 ^ w)) in
    let scaled = ap (λ (t : ℕ). 2 ^ p * t) above in
    let parts : v ≡ lo + 2 ^ p * (2 ^ w * y) = omega (arith, div-add-mod v (2 ^ p)) in
    let whole : 2 ^ p * 2 ^ w ≤ 2 ^ 64 =
      omega (arith, two_pow_add p w, two_pow_le (p + w) 64 room) in
    let split : 2 ^ p * 2 ^ w ≡ 2 ^ p * (2 ^ w - 1) + 2 ^ p =
      omega (arith, ap (λ (t : ℕ). 2 ^ p * t) (pred-one w)) in
    let fits : (2 ^ w - 1) * 2 ^ p < 2 ^ 64 = omega (arith, two_pow_pos p) in
    bit_or v (shl64 (2 ^ w - 1) p)
    ≡⟨ ap₂ bit_or parts (mod-eq_of_lt fits) ⟩
      bit_or (lo + 2 ^ p * (2 ^ w * y)) ((2 ^ w - 1) * 2 ^ p)
    ≡⟨ bit_or_clear p w lo y (2 ^ w - 1) low ones_lt ⟩ lo + 2 ^ p * ((2 ^ w - 1) + 2 ^ w * y)
    ≡⟨ (omega arith) ⟩ v + (2 ^ w - 1) * 2 ^ p ∎
