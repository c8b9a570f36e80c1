-- ===== src/Utils/Wrap.antt =====
-- A remainder as it is used for going round an array: `x % len` for an `x` that is less than two
-- lengths, in `for_offsetted` of src/utils.h and in the searches of src/trees.c.
use native.Mathlib.Nat.{mod-eq_of_lt, mod-eq-sub-mod}
use llfree_c.Base.{
  ℕ, ◌+◌, ◌-◌, ◌%◌, ◌≤◌, ◌<◌, ◌≡◌, ◌∙◌, arith, if◌then◌else◌, Bool-cases, inl, inr, leb,
}

-- Round an array of `len`, for a place less than two lengths off.
abbrev pub wrap : ℕ → ℕ → ℕ
wrap len n = if leb len n then n - len else n

pub mod-eq-wrap : (len n : ℕ) → n < len + len → n % len ≡ wrap len n
mod-eq-wrap len n h = elim (Bool-cases (leb len n)) [
  | inl past ↦
      let ge : len ≤ n = ground arith in
      let inside : n - len < len = omega arith in
      rw past (mod-eq-sub-mod {n = n} {m = len} ge ∙ mod-eq_of_lt inside)
  | inr short ↦ rw short (mod-eq_of_lt (ground arith))
]
