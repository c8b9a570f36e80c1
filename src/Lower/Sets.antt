-- ===== src/Lower/Sets.antt =====
-- The free frames of the lower allocator (src/lower.c) when one child of it is replaced.
use mathlib.Core.Path.{ap₂}
use llfree_c.Base.{
  none, some, Option-cases, lt_of_get_elem?, length, get_elem?, ◌≤◌, ℕ, ◌+◌, ◌*◌, ◌/◌, ◌%◌, ◌≤◌,
  ◌≡◌, ◌≢◌, refl, sym, ap, ◌∙◌, arith, Bool, true, false, ◌&&◌, ◌==◌, ==-true, if◌then◌else◌,
  Bool-cases, inl, inr, Option, get_elem?-set_ne,
}
use llfree_c.Child.{Child}
use llfree_c.Bitfield.{Bitfield}
use llfree_c.Bitfield.Frames.{frame_bit, in_run}
use llfree_c.Lower.State.{Lower, child_count, get_child}
use llfree_c.Lower.Undo.{get_child-put_ne}
use llfree_c.Lower.Single.{HasChild, with_child, HasChild-with_child}
use llfree_c.Lower.Spec.{is_free, free_in_child, Takes, Returns}

-- The free frames of one child, and of the others after it is replaced.
pub is_free-HasChild :
    (l : Lower) (i x : ℕ) (c : Child) (f : Bitfield)
    → HasChild l i c f
    → x / 512 ≡ i
    → is_free l x ≡ (if c.huge then false else frame_bit f (x % 512) == 0)
unfolding is_free
is_free-HasChild l i x c f has at = rw (at, has.child, has.bits) refl

pub is_free-with_child :
    (l : Lower) (i x : ℕ) (d : Child) (g : Bitfield)
    → x / 512 ≢ i
    → is_free (with_child l i d g) x ≡ is_free l x
unfolding is_free get_child child_count
is_free-with_child l i x d g ne =
    let other : i ≢ x / 512 = λ e. ne (sym e) in
    ap₂ (λ (c : Option Child) (f : Option Bitfield). free_in_child c f (x % 512))
      (get_child-put_ne l i (x / 512) d other) (get_elem?-set_ne l.fields i (x / 512) g other)

-- A frame without bits is not free.
pub is_free-behind : (l : Lower) (x : ℕ) → length l.fields ≤ x / 512 → is_free l x ≡ false
unfolding is_free
is_free-behind l x h = elim (Option-cases (get_elem? l.fields (x / 512))) [
  | inl none_there ↦ rw none_there (no_bits (get_child l (x / 512)))
  | inr (f, at) ↦ absurd (omega (arith, lt_of_get_elem? l.fields (x / 512) f at))
]
  where
    no_bits : (c : Option Child) → free_in_child c none (x % 512) ≡ false
    no_bits none = refl
    no_bits (some c) = refl

-- A run inside of child `i`, for a frame of the child and for another one.
in_run-child :
    (i pos n x : ℕ)
    → pos + n ≤ 512
    → in_run (i * 512 + pos) n x ≡ ((x / 512 == i) && in_run pos n (x % 512))
in_run-child i pos n x fits = ground arith

-- A child that is not huge before nor after.
module _ (l : Lower) (i : ℕ) (c d : Child) (f g : Bitfield) (has : HasChild l i c f)
    (small : c.huge ≡ false) (small' : d.huge ≡ false) (pos n : ℕ) (fits : pos + n ≤ 512) where
  -- The frames of child `i`, by its bits.
  here : (x : ℕ) → x / 512 ≡ i → is_free l x ≡ (frame_bit f (x % 512) == 0)
  here x at = is_free-HasChild l i x c f has at ∙ rw small refl

  after : (x : ℕ) → x / 512 ≡ i → is_free (with_child l i d g) x ≡ (frame_bit g (x % 512) == 0)
  after x at =
      is_free-HasChild (with_child l i d g) i x d g (HasChild-with_child l i c d f g has) at
      ∙ rw small' refl

  -- Where the child's bits change by `b` on the run and nowhere else, so do its frames.
  changed :
      (b : ℕ)
      → ((x : ℕ) → frame_bit g x ≡ (if in_run pos n x then b else frame_bit f x))
      → (x : ℕ)
      → is_free (with_child l i d g) x
        ≡ (if in_run (i * 512 + pos) n x then b == 0 else is_free l x)
  changed b bits x = elim (Bool-cases (x / 512 == i)) [
    | inl same ↦
        let at : x / 512 ≡ i = ground arith in
        rw (in_run-child i pos n x fits, same)
          (after x at
            ∙ ap (λ (t : ℕ). t == 0) (bits (x % 512))
            ∙ split (in_run pos n (x % 512)) (here x at))
    | inr other ↦
        rw (in_run-child i pos n x fits, other) (is_free-with_child l i x d g (ground arith))
  ]
    where
      split :
          (t : Bool)
          → is_free l x ≡ (frame_bit f (x % 512) == 0)
          → ((if t then b else frame_bit f (x % 512)) == 0) ≡ (if t then b == 0 else is_free l x)
      split true e = refl
      split false e = sym e

  pub Takes-child :
      ((x : ℕ) → in_run pos n x ≡ true → frame_bit f x ≡ 0)
      → ((x : ℕ) → frame_bit g x ≡ (if in_run pos n x then 1 else frame_bit f x))
      → Takes (is_free l) (is_free (with_child l i d g)) (i * 512 + pos) n
  Takes-child clear bits = record {
    was_free = λ x inside.
        let at : x / 512 ≡ i = ground (arith, in_run-child i pos n x fits) in
        let in_bits : in_run pos n (x % 512) ≡ true = ground (arith, in_run-child i pos n x fits) in
        here x at ∙ ==-true _ _ (clear (x % 512) in_bits);
    now = changed 1 bits;
  }

  pub Returns-child :
      ((x : ℕ) → in_run pos n x ≡ true → frame_bit f x ≡ 1)
      → ((x : ℕ) → frame_bit g x ≡ (if in_run pos n x then 0 else frame_bit f x))
      → Returns (is_free l) (is_free (with_child l i d g)) (i * 512 + pos) n
  Returns-child full bits = record {
    was_used = λ x inside.
        let at : x / 512 ≡ i = ground (arith, in_run-child i pos n x fits) in
        let in_bits : in_run pos n (x % 512) ≡ true = ground (arith, in_run-child i pos n x fits) in
        here x at ∙ ap (λ (t : ℕ). t == 0) (full (x % 512) in_bits);
    now = changed 0 bits;
  }
