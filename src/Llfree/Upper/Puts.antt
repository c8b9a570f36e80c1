-- ===== src/Llfree/Upper/Puts.antt =====
-- `llfree_put` of src/llfree.c, for the runs inside a row.
use mathlib.Core.Path.{subst}
use llfree_c.Base.{
  ℕ, ◌+◌, ◌/◌, ◌%◌, ◌^◌, ◌≤◌, ◌<◌, ◌≡◌, ◌⊎◌, inl, inr, refl, sym, arith, Bool, true, false, Option,
  some, none, List, [], ◌∷◌,
}
use llfree_c.Base.Bits.{two_pow_pos}
use llfree_c.Types.{Request, Outcome, llfree_ok, llfree_err, memory, argument}
use llfree_c.Bitfield.Frames.{in_run}
use llfree_c.Lower.State.{Lower}
use llfree_c.Lower.Spec.{is_free, Returns}
use llfree_c.Lower.Ready.{Put}
use llfree_c.Lower.Ready.Puts.{lower_put-Put}
use llfree_c.Llfree.{Llfree}
use llfree_c.Llfree.Get.{validate_request}
use llfree_c.Llfree.Manage.{count_put, llfree_put}
use llfree_c.Llfree.Upper.{IsUpper}
use llfree_c.Llfree.Upper.Entries.{put_back_lem}
use llfree_c.Llfree.Upper.Slots.{ll_local_put-step}
use llfree_c.Llfree.Upper.Requests.{
  validate_request-refuses, HasLocal, u32_two_pow, IsRequest, validate_request_lem, local_slot,
}

-- The lower allocator takes frames back: they are in the hand.
Put-step :
    {frames : ℕ} {shape : ℕ → Option (Option ℕ)} {hand : List (ℕ × ℕ)} (s : Llfree) (l : Lower)
    (n frame : ℕ)
    → IsUpper frames shape hand s
    → Put frames s.lower l n frame
    → IsUpper frames shape ((frame / 4096, n) ∷ hand) (record s { lower = l })
Put-step s l n frame u put = record {
  ready = put.ready;
  array = u.array;
  slots = u.slots;
  covered = λ i lt. ground (arith, u.covered i lt, put.counters i);
}

count_put_lem :
    {frames : ℕ} {shape : ℕ → Option (Option ℕ)} (s : Llfree) (frame : ℕ) (request : Request)
    → IsUpper frames shape ((frame / 4096, 2 ^ request.order) ∷ []) s
    → IsRequest frames shape request (some frame)
    → (2 ^ request.order) % 2 ^ 32 ≡ 2 ^ request.order
    → frame / 4096 < (frames + 4095) / 4096
    → (s' : Llfree) × (count_put s frame request ≡ some (s', llfree_ok 0 0))
      × IsUpper frames shape [] s'
      × (s'.lower ≡ s.lower)
unfolding count_put
count_put_lem {frames} {shape} s frame request u q word inside = find request.local refl
  where
    find :
        (m : Option ℕ)
        → request.local ≡ m
        → (s' : Llfree) × (count_put s frame request ≡ some (s', llfree_ok 0 0))
          × IsUpper frames shape [] s'
          × (s'.lower ≡ s.lower)
    find none e =
        let (s', ran, u', same, _) = put_back_lem s (frame / 4096) (2 ^ request.order) u inside in
        (s', cc (e, word, ran), u', same)
    find (some index) e =
        let (r, at) =
          local_slot s request (some frame) index u q
            (subst (λ m. HasLocal m q.len) e q.local_lt) in
        elim (ll_local_put-step s request.class index (frame / 4096) (2 ^ request.order) r u inside
          at) [
            | inl (l, ran, u') ↦ (record s { local = l }, cc (e, word, ran), u', refl)
            | inr ran ↦
                let (s', done, u', same, _) =
                  put_back_lem s (frame / 4096) (2 ^ request.order) u inside in
                (s', cc (e, word, ran, done), u', same)
          ]

-- What a put has done by how it ended.
abbrev pub PutEnds : ℕ → (ℕ → Option (Option ℕ)) → Llfree → ℕ → Request → Llfree × Outcome → Type 0
PutEnds frames shape s frame request r =
    (IsRequest frames shape request (some frame)
      × (((r.1 ≡ llfree_ok 0 0)
            × IsUpper frames shape [] r.0
            × Returns (is_free s.lower) (is_free r.0.lower) frame (2 ^ request.order))
          ⊎ ((r ≡ (s, llfree_err memory))
              × (((x : ℕ) → in_run frame (2 ^ request.order) x ≡ true → is_free s.lower x ≡ false)
                  → ⊥))))
    ⊎ ((IsRequest frames shape request (some frame) → ⊥) × (r ≡ (s, llfree_err argument)))

-- On a consistent allocator of fewer than `2 ^ 41` frames (the lower one sound, the entries and the
-- slots valid, and no tree with more frames on its counter and on slots than its children count),
-- for any policy and an order up to 6, `llfree_put` does not fail an assertion. A request that does
-- not fit the memory or the classes and slots that are configured is refused and changes nothing.
-- Otherwise it succeeds, the allocator is consistent, no frame of the run was free and exactly
-- these are free in addition; or it reports an error on memory and changes nothing, and not all
-- frames of the run were in use.
pub llfree_put-PutEnds :
    (frames : ℕ) (shape : ℕ → Option (Option ℕ)) (s : Llfree) (frame : ℕ) (request : Request)
    → frames < 2 ^ 41
    → IsUpper frames shape [] s
    → request.order ≤ 6
    → (r : Llfree × Outcome) × (llfree_put s frame request ≡ some r)
      × PutEnds frames shape s frame request r
unfolding llfree_put
llfree_put-PutEnds frames shape s frame request few u small =
    let (valid, tested, accepts) = validate_request_lem s request (some frame) u in
    elim valid
        as (λ (v : Bool).
          validate_request s request (some frame) ≡ some v
          → (v ≡ true → IsRequest frames shape request (some frame))
          → (r : Llfree × Outcome) × (llfree_put s frame request ≡ some r)
            × PutEnds frames shape s frame request r) [
              | false ↦ λ e _. (
                (s, llfree_err argument),
                cc e,
                inr (
                  validate_request-refuses s request (some frame) u (omega (arith, small)) e,
                  refl,
                ),
              )
              | true ↦ λ e q. accepted e (q refl)
            ]
      tested accepts
  where
    accepted :
        validate_request s request (some frame) ≡ some true
        → IsRequest frames shape request (some frame)
        → (r : Llfree × Outcome) × (llfree_put s frame request ≡ some r)
          × PutEnds frames shape s frame request r
    accepted e q =
        let (room, aligned) = q.fits in
        let positive = two_pow_pos request.order in
        let ((l, res), ran, end) =
          lower_put-Put frames s.lower frame request.order few u.ready small room aligned in
        elim end [
          | inl (done, put) ↦
              let (s', counted, u', same) =
                count_put_lem (record s { lower = l }) frame request
                  (Put-step s l (2 ^ request.order) frame u put) q (u32_two_pow request.order small)
                  (omega (arith, room, positive)) in
              (
                (s', llfree_ok 0 0),
                cc (e, ran, done, counted),
                inl (
                  q,
                  inl (
                    refl,
                    u',
                    subst (λ m. Returns (is_free s.lower) (is_free m) frame (2 ^ request.order))
                        (sym same) put.returns,
                  ),
                ),
              )
          | inr (refused, why) ↦
              ((s, llfree_err memory), cc (e, ran, refused), inl (q, inr (refl, why)))
        ]
