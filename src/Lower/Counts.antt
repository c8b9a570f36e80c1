-- ===== src/Lower/Counts.antt =====
-- The free frames that the entries of one tree count, for src/lower.c.
use mathlib.Core.Path.{subst}
use llfree_c.Base.{
  sym, ℕ, zero, suc, ◌+◌, ◌*◌, ◌/◌, ◌≤◌, ◌<◌, ◌≡◌, ap, ◌∙◌, arith, ◌==◌, if◌then◌else◌, Bool-cases,
  inl, inr, some, List, get_elem?, set, get_elem?-set_self, get_elem?-set_ne, lt_of_get_elem?,
}
use llfree_c.Child.{Child}
use llfree_c.Bitfield.{Bitfield}
use llfree_c.Bitfield.Frames.{in_run}
use llfree_c.Lower.State.{Lower}
use llfree_c.Lower.Undo.{get_child-eq-some}
use llfree_c.Lower.Single.{HasChild, with_child, few}
use llfree_c.Lower.Invariant.{IsLower, entry_count}
use llfree_c.Lower.Stats.Total.{weight, span}

-- A write to one entry changes a sum over entries by its own weight.
span-set :
    (w : Child → ℕ) (xs : List Child) (j : ℕ) (x y : Child)
    → get_elem? xs j ≡ some x
    → (n i : ℕ)
    → span w (set xs j y) i n + (if in_run i n j then w x else 0)
      ≡ span w xs i n + (if in_run i n j then w y else 0)
span-set w xs j x y at zero i = ground arith
span-set w xs j x y at (suc n) i = elim (Bool-cases (j == i)) [
  | inl same ↦
      let here : j ≡ i = ground arith in
      let old : weight w (get_elem? xs i) ≡ w x =
        ap (weight w) (ap (get_elem? xs) (sym here) ∙ at) in
      let new : weight w (get_elem? (set xs j y) i) ≡ w y = ap (weight w) (
        ap (get_elem? (set xs j y)) (sym here)
        ∙ get_elem?-set_self xs j y (lt_of_get_elem? xs j x at)) in
      ground (arith, span-set w xs j x y at n (suc i), old, new)
  | inr other ↦
      let kept : weight w (get_elem? (set xs j y) i) ≡ weight w (get_elem? xs i) =
        ap (weight w) (get_elem?-set_ne xs j i y (ground arith)) in
      ground (arith, span-set w xs j x y at n (suc i), kept)
]

-- The free frames of tree `t`.
unfoldable pub tree_free : Lower → ℕ → ℕ
tree_free l t = span (λ c. c.free) l.children (t * 8) 8

pub tree_free-with_child :
    (l : Lower) (i t : ℕ) (c d : Child) (f g : Bitfield)
    → HasChild l i c f
    → tree_free (with_child l i d g) t + (if t == i / 8 then c.free else 0)
      ≡ tree_free l t + (if t == i / 8 then d.free else 0)
unfolding tree_free
tree_free-with_child l i t c d f g has =
    let law =
      span-set (λ e. e.free) l.children i c d (get_child-eq-some l i c has.child) 8 (t * 8) in
    let inside : in_run (t * 8) 8 i ≡ (t == i / 8) = ground arith in
    subst
      (λ b.
        span (λ e. e.free) (set l.children i d) (t * 8) 8 + (if b then c.free else 0)
        ≡ span (λ e. e.free) l.children (t * 8) 8 + (if b then d.free else 0))
      inside law

span-le :
    (w : Child → ℕ) (xs : List Child) (m : ℕ) (n i : ℕ)
    → ((j : ℕ) → i ≤ j → j < i + n → weight w (get_elem? xs j) ≤ m)
    → span w xs i n ≤ n * m
span-le w xs m zero i h = omega arith
span-le w xs m (suc n) i h =
    omega (arith, h i, span-le w xs m n (suc i) (λ j low high. h j (omega arith) (omega arith)))

-- A sound tree counts at most its 4096 frames.
pub tree_free-le :
    (l : Lower) (t : ℕ) → IsLower l → t * 8 + 8 ≤ entry_count l → tree_free l t ≤ 4096
unfolding tree_free
tree_free-le l t sound h =
    let all = span-le (λ c. c.free) l.children 512 8 (t * 8) (λ j low high. each j (omega arith)) in
    omega arith
  where
    each : (j : ℕ) → j < entry_count l → weight (λ c. c.free) (get_elem? l.children j) ≤ 512
    each j lt =
        let s = sound j lt in
        let at = get_child-eq-some l j s.child s.at in
        let bound : s.child.free ≤ 512 = elim (s.kept) [
          | inl (f, has, agree) ↦ few s.child f agree
          | inr (behind, none_left) ↦ omega arith
        ] in
        omega (arith, ap (weight (λ c. c.free)) at)
