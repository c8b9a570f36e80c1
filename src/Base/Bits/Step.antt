-- ===== src/Base/Bits/Step.antt =====
-- `&` and `|` by their lowest binary digits. The natural numbers define both with a bound on the
-- number of digits; a bound that is large enough can be raised.
use Prim.Native.Nat.{
  ℕ, zero, suc, ◌+◌, ◌-◌, ◌*◌, ◌/◌, ◌%◌, ◌≤◌, min, max, digits, bitwise, bit_and, bit_or,
  bit_and-bitwise, bit_or-bitwise,
}
use mathlib.Core.Path.{◌≡◌, refl, ◌∙◌, ap}
use native.Mathlib.Omega.{arith}

module _ (last : ℕ → ℕ) (join : ℕ → ℕ → ℕ) where
  -- One digit more changes nothing.
  bound-raise :
      (bound x y : ℕ) → x ≤ bound → digits last join (suc bound) x y ≡ digits last join bound x y
  bound-raise zero zero y enough = refl
  bound-raise (suc less) zero y enough = refl
  bound-raise zero (suc x) y enough = absurd (omega arith)
  bound-raise (suc less) (suc x) y enough =
      ap (λ (high : ℕ). high * 2 + join (suc x % 2) (y % 2))
        (bound-raise less (suc x / 2) (y / 2) (omega arith))

  bound-raise_by :
      (extra bound x y : ℕ)
      → x ≤ bound
      → digits last join (extra + bound) x y ≡ digits last join bound x y
  bound-raise_by zero bound x y enough = let same : 0 + bound ≡ bound = omega arith in rw same refl
  bound-raise_by (suc extra) bound x y enough =
      let next : suc extra + bound ≡ suc (extra + bound) = omega arith in
      rw next
        (bound-raise (extra + bound) x y (omega arith) ∙ bound-raise_by extra bound x y enough)

  lowest :
      (x y : ℕ)
      → bitwise last join (suc x) y
        ≡ bitwise last join (suc x / 2) (y / 2) * 2 + join (suc x % 2) (y % 2)
  lowest x y =
      let half = suc x / 2 in
      let split : x - half + half ≡ x = omega arith in
      let raised = bound-raise_by (x - half) half half (y / 2) (omega arith) in
      ap (λ (high : ℕ). high * 2 + join (suc x % 2) (y % 2)) (rw split at raised)

-- An operation is twice that of the upper digits, and `join` of the lowest two.
abbrev pub FromLowest : (ℕ → ℕ → ℕ) → (ℕ → ℕ → ℕ) → Type 0
FromLowest op join = (x y : ℕ) → op x y ≡ op (x / 2) (y / 2) * 2 + join (x % 2) (y % 2)

pub bit_or_step : FromLowest bit_or max
bit_or_step (suc x) = λ y. simp bit_or-bitwise (lowest (λ rest. rest) max x y)
bit_or_step zero = λ y. simp bit_or-bitwise (omega arith)

pub bit_and_step : FromLowest bit_and min
bit_and_step (suc x) = λ y. simp bit_and-bitwise (lowest (λ rest. 0) min x y)
bit_and_step zero = λ y. simp bit_and-bitwise (omega arith)
