-- ===== src/Llfree/Upper/Balance.antt =====
-- How often the calls of src/llfree.c give a frame away and take it back.
use llfree_c.Base.{
  ℕ, ◌+◌, ◌^◌, ◌<◌, ◌≡◌, refl, arith, Bool, false, ◌&&◌, if◌then◌else◌, some, Option, List, [], ◌∷◌,
  Bool-cases, inl, inr, ap,
}
use llfree_c.Types.{Outcome, llfree_is_ok}
use llfree_c.Bitfield.Frames.{in_run}
use llfree_c.Lower.Spec.{is_free, Takes, Returns}
use llfree_c.Llfree.{Llfree}
use llfree_c.Llfree.Upper.{IsUpper}
use llfree_c.Llfree.Upper.History.{
  Call, get, put, drain, calls, Step, granted, refused, returned, drained, Run, stop, next,
  AllSmall, calls-Run,
}

-- Whether a call gives the frame `x` away, and whether it takes it back, as numbers.
abbrev pub one_if : Bool → ℕ
one_if b = if b then 1 else 0

abbrev pub gives_out : ℕ → Call → Outcome → ℕ
gives_out x (get wanted request) res =
    one_if (llfree_is_ok res && in_run res.frame (2 ^ request.order) x)
gives_out x (put frame request) res = 0
gives_out x drain res = 0

abbrev pub takes_in : ℕ → Call → Outcome → ℕ
takes_in x (get wanted request) res = 0
takes_in x (put frame request) res = one_if (llfree_is_ok res && in_run frame (2 ^ request.order) x)
takes_in x drain res = 0

-- The same for all calls of a sequence.
abbrev pub given : ℕ → List Call → List Outcome → ℕ
given x (c ∷ cs) (r ∷ rs) = gives_out x c r + given x cs rs
given x _ _ = 0

abbrev pub taken_back : ℕ → List Call → List Outcome → ℕ
taken_back x (c ∷ cs) (r ∷ rs) = takes_in x c r + taken_back x cs rs
taken_back x _ _ = 0

Takes-balance :
    (f g : ℕ → Bool) (frame n x : ℕ)
    → Takes f g frame n
    → one_if (in_run frame n x) + one_if (g x) ≡ one_if (f x)
Takes-balance f g frame n x t =
    let now = t.now x in
    elim (Bool-cases (in_run frame n x)) [
      | inl inside ↦ let was = t.was_free x inside in rw (inside, now, inside, was) refl
      | inr outside ↦ rw (outside, now, outside) (omega arith)
    ]

Returns-balance :
    (f g : ℕ → Bool) (frame n x : ℕ)
    → Returns f g frame n
    → one_if (g x) ≡ one_if (in_run frame n x) + one_if (f x)
Returns-balance f g frame n x t =
    let now = t.now x in
    elim (Bool-cases (in_run frame n x)) [
      | inl inside ↦ let was = t.was_used x inside in rw (now, inside, was) refl
      | inr outside ↦ rw (now, outside) (omega arith)
    ]

refused-balance :
    (c : Call) (res : Outcome) (x a b : ℕ)
    → llfree_is_ok res ≡ false
    → a ≡ b
    → gives_out x c res + a ≡ takes_in x c res + b
refused-balance (get wanted request) res x a b failed e = rw failed (omega (arith, e))
refused-balance (put frame request) res x a b failed e = rw failed (omega (arith, e))
refused-balance drain res x a b failed e = omega (arith, e)

Step-balance :
    (c : Call) (res : Outcome) (f g : ℕ → Bool) (x : ℕ)
    → Step c res f g
    → gives_out x c res + one_if (g x) ≡ takes_in x c res + one_if (f x)
Step-balance (get w q) (_) f g x (granted frame class _ _ takes) =
    omega (arith, Takes-balance f g frame (2 ^ q.order) x takes)
Step-balance c res f g x (refused failed same) =
    refused-balance c res x _ _ failed (ap one_if (same x))
Step-balance (put frame q) (_) f g x (returned returns) =
    omega (arith, Returns-balance f g frame (2 ^ q.order) x returns)
Step-balance drain (_) f g x (drained same) = omega (arith, ap one_if (same x))

Run-balance :
    (cs : List Call) (all : List Outcome) (f h : ℕ → Bool) (x : ℕ)
    → Run cs all f h
    → given x cs all + one_if (h x) ≡ taken_back x cs all + one_if (f x)
Run-balance [] [] f h x stop = refl
Run-balance [] (r ∷ rs) f h x run = elim run [ ]
Run-balance (c ∷ cs) [] f h x run = elim run [ ]
Run-balance (c ∷ cs) (r ∷ rs) f h x (next {g} step run) =
    omega (arith, Step-balance c r f g x step, Run-balance cs rs g h x run)

-- From a state with the invariant and on fewer than `2 ^ 41` frames, calls of orders of at most 6 do
-- not fail an assertion and keep the invariant, and for every frame the times it was given away and
-- whether it is free at the end add up to the times it was taken back and whether it was free at
-- the start.
pub calls-balance :
    (frames : ℕ) (shape : ℕ → Option (Option ℕ)) (cs : List Call) (s : Llfree)
    → frames < 2 ^ 41
    → AllSmall cs
    → IsUpper frames shape [] s
    → (s' : Llfree) × (all : List Outcome) × (calls cs s ≡ some (s', all))
      × IsUpper frames shape [] s'
      × ((x : ℕ)
          → given x cs all + one_if (is_free s'.lower x)
            ≡ taken_back x cs all + one_if (is_free s.lower x))
calls-balance frames shape cs s few small u =
    let (s', all, ran, u', run) = calls-Run frames shape few cs s small u in
    (s', all, ran, u', λ x. Run-balance cs all (is_free s.lower) (is_free s'.lower) x run)
