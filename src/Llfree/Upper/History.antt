-- ===== src/Llfree/Upper/History.antt =====
-- Sequences of calls of src/llfree.c against an abstract allocator, whose state is the set of free
-- frames.
use mathlib.Core.Path.{subst}
use llfree_c.Base.{
  ℕ, ◌%◌, ◌^◌, ◌≤◌, ◌<◌, ◌≡◌, inl, inr, refl, sym, ◌∙◌, Bool, false, Option, some, List, [], ◌∷◌,
  ◌>>=◌,
}
use llfree_c.Types.{Outcome, llfree_ok, llfree_err, llfree_is_ok, memory, argument, Request}
use llfree_c.Lower.Spec.{is_free, Takes, Returns}
use llfree_c.Lower.Ready.{IsWanted}
use llfree_c.Llfree.{Llfree}
use llfree_c.Llfree.Get.{llfree_get}
use llfree_c.Llfree.Manage.{llfree_put, llfree_drain}
use llfree_c.Llfree.Upper.{IsUpper}
use llfree_c.Llfree.Upper.Gets.{llfree_get-GetEnds}
use llfree_c.Llfree.Upper.Puts.{llfree_put-PutEnds}
use llfree_c.Llfree.Upper.Drain.{llfree_drain-Drains}

-- A call of the interface.
pub data Call : Type 0 where
  get : (wanted : Option ℕ) (request : Request) → Call
  put : (frame : ℕ) (request : Request) → Call
  drain : Call

unfoldable pub call : Call → Llfree → Option (Llfree × Outcome)
call (get wanted request) s = llfree_get s wanted request
call (put frame request) s = llfree_put s frame request
call drain s = llfree_drain s >>= λ s'. some (s', llfree_ok 0 0)

-- The calls one after the other, with the results.
unfoldable pub calls : List Call → Llfree → Option (Llfree × List Outcome)
calls [] s = some (s, [])
calls (c ∷ rest) s = do (s1, res) ← call c s; (s2, all) ← calls rest s1; some (s2, res ∷ all)

abbrev pub Same : (ℕ → Bool) → (ℕ → Bool) → Type 0
Same f g = (x : ℕ) → g x ≡ f x

-- A step of the abstract allocator: a call, its result, and the free frames before and after.
pub data Step : Call → Outcome → (ℕ → Bool) → (ℕ → Bool) → Type 0 where
  granted :
      {f g : ℕ → Bool} {wanted : Option ℕ} {request : Request} (frame class : ℕ)
      → IsWanted wanted frame
      → frame % 2 ^ request.order ≡ 0
      → Takes f g frame (2 ^ request.order)
      → Step (get wanted request) (llfree_ok frame class) f g
  refused :
      {f g : ℕ → Bool} {c : Call} {res : Outcome}
      → llfree_is_ok res ≡ false
      → Same f g
      → Step c res f g
  returned :
      {f g : ℕ → Bool} {frame : ℕ} {request : Request}
      → Returns f g frame (2 ^ request.order)
      → Step (put frame request) (llfree_ok 0 0) f g
  drained : {f g : ℕ → Bool} → Same f g → Step drain (llfree_ok 0 0) f g

-- A run of the abstract allocator.
pub data Run : List Call → List Outcome → (ℕ → Bool) → (ℕ → Bool) → Type 0 where
  stop : {f : ℕ → Bool} → Run [] [] f f
  next :
      {f g h : ℕ → Bool} {c : Call} {res : Outcome} {rest : List Call} {all : List Outcome}
      → Step c res f g
      → Run rest all g h
      → Run (c ∷ rest) (res ∷ all) f h

-- The orders inside a row.
abbrev pub IsSmall : Call → Type 0
IsSmall (get wanted request) = request.order ≤ 6
IsSmall (put frame request) = request.order ≤ 6
IsSmall drain = Unit

abbrev pub AllSmall : List Call → Type 0
AllSmall [] = Unit
AllSmall (c ∷ rest) = IsSmall c × AllSmall rest

module _ (frames : ℕ) (shape : ℕ → Option (Option ℕ)) (few : frames < 2 ^ 41) where
  call_lem :
      (c : Call) (s : Llfree)
      → IsSmall c
      → IsUpper frames shape [] s
      → (s' : Llfree) × (res : Outcome) × (call c s ≡ some (s', res))
        × IsUpper frames shape [] s'
        × Step c res (is_free s.lower) (is_free s'.lower)
  unfolding call
  call_lem (get wanted request) s small u =
      let ((s', res), ran, u', end) =
        llfree_get-GetEnds frames shape s wanted request few u small in
      (
        s',
        res,
        ran,
        u',
        elim end [
          | inl (_, inl (frame, class, done, is_wanted, aligned, takes)) ↦
              subst (λ o. Step (get wanted request) o (is_free s.lower) (is_free s'.lower))
                (sym done) (granted frame class is_wanted aligned takes)
          | inl (_, inr (failed, same)) ↦ refused (cc failed) (λ x. cc same)
          | inr (_, same) ↦ refused (cc same) (λ x. cc same)
        ],
      )
  call_lem (put frame request) s small u =
      let ((s', res), ran, end) = llfree_put-PutEnds frames shape s frame request few u small in
      elim end [
        | inl (_, inl (done, u', returns)) ↦ (
          s',
          res,
          ran,
          u',
          subst (λ o. Step (put frame request) o (is_free s.lower) (is_free s'.lower)) (sym done)
              (returned returns),
        )
        | inl (_, inr (failed, _)) ↦
            (s, llfree_err memory, ran ∙ cc failed, u, refused refl (λ x. refl))
        | inr (_, failed) ↦ (s, llfree_err argument, ran ∙ cc failed, u, refused refl (λ x. refl))
      ]
  call_lem drain s small u =
      let (s', ran, d) = llfree_drain-Drains frames shape s u in
      let same = d.same in (s', llfree_ok 0 0, cc ran, d.upper, drained (λ x. cc same))

  -- On a consistent allocator of fewer than `2 ^ 41` frames (the lower one sound, the entries and
  -- the slots valid, and no tree with more frames on its counter and on slots than its children
  -- count), any sequence of `llfree_get`, `llfree_put` and `llfree_drain` with orders up to 6 runs
  -- without a failed assertion and leaves a consistent allocator, and its results with the free
  -- frames before and after are those of a run of the abstract allocator, whose state is the set of
  -- free frames.
  pub calls-Run :
      (cs : List Call) (s : Llfree)
      → AllSmall cs
      → IsUpper frames shape [] s
      → (s' : Llfree) × (all : List Outcome) × (calls cs s ≡ some (s', all))
        × IsUpper frames shape [] s'
        × Run cs all (is_free s.lower) (is_free s'.lower)
  unfolding calls
  calls-Run [] s small u = (s, [], refl, u, stop)
  calls-Run (c ∷ rest) s (small, smalls) u =
      let (s1, res, first, u1, step) = call_lem c s small u in
      let (s2, all, others, u2, run) = calls-Run rest s1 smalls u1 in
      (s2, res ∷ all, cc (first, others), u2, next step run)
