-- ===== src/Llfree/Upper/Gets.antt =====
-- `llfree_get` of src/llfree.c, for the runs inside a row.
use llfree_c.Base.{
  arith, ℕ, ◌%◌, ◌^◌, ◌≤◌, ◌<◌, ◌≡◌, ◌⊎◌, inl, inr, refl, Bool, true, false, Option, some, none, [],
}
use llfree_c.Types.{Outcome, llfree_ok, llfree_err, memory, argument, Request}
use llfree_c.Llfree.{Llfree}
use llfree_c.Llfree.Get.{validate_request, llfree_get}
use llfree_c.Llfree.Upper.{IsUpper}
use llfree_c.Llfree.Upper.Requests.{validate_request-refuses, validate_request_lem, IsRequest}
use llfree_c.Llfree.Upper.Ends.{Gives, Gives-eq}
use llfree_c.Lower.Spec.{is_free, Takes}
use llfree_c.Lower.Ready.{IsWanted}
use llfree_c.Llfree.Upper.Any.{get_any-Gives}
use llfree_c.Llfree.Upper.At.{llfree_get_at-Gives}

-- What a get has done by how it ended.
abbrev pub GetEnds :
    ℕ → (ℕ → Option (Option ℕ)) → Llfree → Option ℕ → Request → Llfree × Outcome → Type 0
GetEnds frames shape s wanted request r =
    (IsRequest frames shape request wanted
      × (((frame : ℕ) × (class : ℕ) × (r.1 ≡ llfree_ok frame class)
            × IsWanted wanted frame
            × (frame % 2 ^ request.order ≡ 0)
            × Takes (is_free s.lower) (is_free r.0.lower) frame (2 ^ request.order))
          ⊎ ((r.1 ≡ llfree_err memory) × (r.0.lower ≡ s.lower))))
    ⊎ ((IsRequest frames shape request wanted → ⊥) × (r ≡ (s, llfree_err argument)))

-- On a consistent allocator of fewer than `2 ^ 41` frames (the lower one sound, the entries and the
-- slots valid, and no tree with more frames on its counter and on slots than its children count),
-- for any policy and an order up to 6, `llfree_get` with or without a frame ends without a failed
-- assertion and leaves a consistent allocator. A request that does not fit the memory or the
-- classes and slots that are configured is refused and changes nothing. Otherwise it returns the
-- start of an aligned run, at the frame asked for if one was, all of which was free, and exactly
-- these frames are no longer free; or it reports that memory is out and the lower allocator is as
-- before.
pub llfree_get-GetEnds :
    (frames : ℕ) (shape : ℕ → Option (Option ℕ)) (s : Llfree) (wanted : Option ℕ)
    (request : Request)
    → frames < 2 ^ 41
    → IsUpper frames shape [] s
    → request.order ≤ 6
    → (r : Llfree × Outcome) × (llfree_get s wanted request ≡ some r)
      × IsUpper frames shape [] r.0
      × GetEnds frames shape s wanted request r
unfolding llfree_get
llfree_get-GetEnds frames shape s wanted request few u small =
    let (valid, tested, accepts) = validate_request_lem s request wanted u in
    elim valid
        as (λ (v : Bool).
          validate_request s request wanted ≡ some v
          → (v ≡ true → IsRequest frames shape request wanted)
          → (r : Llfree × Outcome) × (llfree_get s wanted request ≡ some r)
            × IsUpper frames shape [] r.0
            × GetEnds frames shape s wanted request r) [
              | false ↦ λ e _. (
                (s, llfree_err argument),
                cc e,
                u,
                inr (validate_request-refuses s request wanted u (omega (arith, small)) e, refl),
              )
              | true ↦ λ e q. ends (q refl) (accepted wanted e (q refl))
            ]
      tested accepts
  where
    accepted :
        (w : Option ℕ)
        → validate_request s request w ≡ some true
        → IsRequest frames shape request w
        → Gives frames shape (2 ^ request.order) w s.lower (llfree_get s w request)
    accepted none e q = Gives-eq (cc e) (get_any-Gives few request small q s u)
    accepted (some f) e q = Gives-eq (cc e) (llfree_get_at-Gives few request small f q s u)

    ends :
        IsRequest frames shape request wanted
        → Gives frames shape (2 ^ request.order) wanted s.lower (llfree_get s wanted request)
        → (r : Llfree × Outcome) × (llfree_get s wanted request ≡ some r)
          × IsUpper frames shape [] r.0
          × GetEnds frames shape s wanted request r
    ends q g = (
      (g.state, g.res),
      g.ran,
      g.upper,
      elim g.end [
        | inl t ↦
            inl (q, inl (t.frame, t.class, t.done, t.is_wanted, t.taken.aligned, t.taken.takes))
        | inr (failed, same) ↦ inl (q, inr (failed, same))
      ],
    )
