-- ===== src/Bitfield/Masks.antt =====
-- The masks of `field_toggle` and `row_toggle` in src/bitfield.c: a run of ones in a word, and a word
-- against it.
use Prim.Native.Nat.{bit_and, bit_or}
use native.Mathlib.Nat.{mod-lt, div-add-mod, mod-eq_of_lt, div-lt_iff_lt-mul}
use llfree_c.Base.{ℕ, ◌+◌, ◌-◌, ◌*◌, ◌/◌, ◌%◌, ◌^◌, ◌≤◌, ◌<◌, ◌≡◌, refl, ap, ◌∙◌, arith}
use mathlib.Core.Path.{ap₂}
use llfree_c.Base.Bits.{
  two_pow_pos, two_pow_add, two_pow_le, bit_and_split, bit_and-ones, bit_and-zero, bit_or_clear,
}
use llfree_c.Utils.{shl64, not64}
use llfree_c.Bitfield.FirstZeros.Spec.{pred-one}

-- A word around its bits from `p` on: those below, `w` bits, and those above.
pub record Around (w p v : ℕ) : Type 0 where
  pub lo : ℕ
  pub mid : ℕ
  pub hi : ℕ
  pub lo_lt : lo < 2 ^ p
  pub mid_eq : mid ≡ v / 2 ^ p % 2 ^ w
  pub mid_lt : mid < 2 ^ w
  pub hi_lt : hi < 2 ^ (64 - p - w)
  pub whole : v ≡ lo + 2 ^ p * (mid + 2 ^ w * hi)

pub word_parts : (w p : ℕ) → p + w ≤ 64 → 2 ^ p * 2 ^ w * 2 ^ (64 - p - w) ≡ 2 ^ 64
word_parts w p room =
    let width : p + w + (64 - p - w) ≡ 64 = omega arith in
    omega (
      arith,
      two_pow_add (p + w) (64 - p - w),
      ap (λ (t : ℕ). t * 2 ^ (64 - p - w)) (two_pow_add p w),
      ap (λ (t : ℕ). 2 ^ t) width,
    )

pub around : (w p v : ℕ) → p + w ≤ 64 → v < 2 ^ 64 → Around w p v
around w p v room h =
    let above = v / 2 ^ p in
    let scaled = ap (λ (t : ℕ). 2 ^ p * t) (div-add-mod above (2 ^ w)) in
    let above_lt : above < 2 ^ w * 2 ^ (64 - p - w) =
      (div-lt_iff_lt-mul (two_pow_pos p)).1 (omega (arith, word_parts w p room)) in
    record {
      lo = v % 2 ^ p;
      mid = above % 2 ^ w;
      hi = above / 2 ^ w;
      lo_lt = mod-lt v (two_pow_pos p);
      mid_eq = refl;
      mid_lt = mod-lt above (two_pow_pos w);
      hi_lt = (div-lt_iff_lt-mul (two_pow_pos w)).1 (omega arith);
      whole = omega (arith, div-add-mod v (2 ^ p), scaled);
    }

-- `&` part by part.
bit_and-around :
    (w p lo lo' mid mid' hi hi' : ℕ)
    → lo < 2 ^ p
    → lo' < 2 ^ p
    → mid < 2 ^ w
    → mid' < 2 ^ w
    → bit_and (lo + 2 ^ p * (mid + 2 ^ w * hi)) (lo' + 2 ^ p * (mid' + 2 ^ w * hi'))
      ≡ bit_and lo lo' + 2 ^ p * (bit_and mid mid' + 2 ^ w * bit_and hi hi')
bit_and-around w p lo lo' mid mid' hi hi' h g k m =
    rw (bit_and_split p lo lo' (mid + 2 ^ w * hi) (mid' + 2 ^ w * hi') h g)
      (ap (λ (t : ℕ). bit_and lo lo' + 2 ^ p * t) (bit_and_split w mid mid' hi hi' k m))

-- The run of `w` ones at `p`.
abbrev pub run : ℕ → ℕ → ℕ
run w p = (2 ^ w - 1) * 2 ^ p

pub shl64-run : (w p : ℕ) → p + w ≤ 64 → shl64 (2 ^ w - 1) p ≡ run w p
shl64-run w p room =
    let whole : 2 ^ p * 2 ^ w ≤ 2 ^ 64 =
      omega (arith, two_pow_add p w, two_pow_le (p + w) 64 room) in
    let split : 2 ^ p * 2 ^ w ≡ 2 ^ p * (2 ^ w - 1) + 2 ^ p =
      omega (arith, ap (λ (t : ℕ). 2 ^ p * t) (pred-one w)) in
    mod-eq_of_lt (omega (arith, two_pow_pos p))

pub bit_and-run : (w p v : ℕ) (a : Around w p v) → bit_and v (run w p) ≡ 2 ^ p * a.mid
bit_and-run w p v a =
    let mask : run w p ≡ 0 + 2 ^ p * ((2 ^ w - 1) + 2 ^ w * 0) = omega arith in
    ap₂ bit_and a.whole mask
    ∙ bit_and-around w p a.lo 0 a.mid (2 ^ w - 1) a.hi 0 a.lo_lt (two_pow_pos p) a.mid_lt
        (omega (arith, two_pow_pos w))
    ∙ rw (bit_and-zero a.lo, bit_and-zero a.hi, bit_and-ones w a.mid a.mid_lt) (omega arith)

-- The bits outside of the run.
pub bit_and-not_run :
    (w p v : ℕ) (a : Around w p v)
    → p + w ≤ 64
    → bit_and v (not64 (run w p)) ≡ a.lo + 2 ^ p * (2 ^ w * a.hi)
bit_and-not_run w p v a room =
    let r = 2 ^ (64 - p - w) in
    let lo_ones : 2 ^ p ≡ (2 ^ p - 1) + 1 = pred-one p in
    let top : 2 ^ p * (2 ^ w * r) ≡ 2 ^ p * (2 ^ w * (r - 1)) + 2 ^ p * 2 ^ w =
      omega (arith, ap (λ (t : ℕ). 2 ^ p * 2 ^ w * t) (pred-one (64 - p - w))) in
    let middle : 2 ^ p * 2 ^ w ≡ 2 ^ p * (2 ^ w - 1) + 2 ^ p =
      omega (arith, ap (λ (t : ℕ). 2 ^ p * t) (pred-one w)) in
    let mask : not64 (run w p) ≡ (2 ^ p - 1) + 2 ^ p * (0 + 2 ^ w * (r - 1)) =
      omega (arith, word_parts w p room) in
    ap₂ bit_and a.whole mask
    ∙ bit_and-around w p a.lo (2 ^ p - 1) a.mid 0 a.hi (r - 1) a.lo_lt
        (omega (arith, two_pow_pos p)) a.mid_lt (two_pow_pos w)
    ∙ rw (bit_and-ones p a.lo a.lo_lt, bit_and-zero a.mid, bit_and-ones _ a.hi a.hi_lt)
        (omega arith)

-- `|` with a run that is clear adds it.
pub bit_or-run : (w p v : ℕ) → p + w ≤ 64 → v / 2 ^ p % 2 ^ w ≡ 0 → bit_or v (run w p) ≡ v + run w p
bit_or-run w p v room clear =
    let y = v / 2 ^ p / 2 ^ w in
    let above : v / 2 ^ p ≡ 2 ^ w * y = omega (arith, div-add-mod (v / 2 ^ p) (2 ^ w)) in
    let scaled = ap (λ (t : ℕ). 2 ^ p * t) above in
    let parts : v ≡ v % 2 ^ p + 2 ^ p * (2 ^ w * y) = omega (arith, div-add-mod v (2 ^ p)) in
    ap (λ (t : ℕ). bit_or t (run w p)) parts
    ∙ bit_or_clear p w (v % 2 ^ p) y (2 ^ w - 1) (mod-lt v (two_pow_pos p))
        (omega (arith, two_pow_pos w))
    ∙ omega arith
