-- ===== src/Llfree/Upper/At.antt =====
-- `llfree_get_at` of src/llfree.c under the invariant: a request that names a frame.
use mathlib.Core.Path.{subst}
use llfree_c.Base.{
  ℕ, ◌/◌, ◌^◌, ◌≤◌, ◌<◌, ◌≡◌, inl, inr, refl, arith, true, ltb, ltb-true, Option, some, none, [],
}
use llfree_c.Base.Bits.{two_pow_pos}
use llfree_c.Types.{llfree_ok, Request}
use llfree_c.Llfree.{Llfree}
use llfree_c.Llfree.Get.{get_at_global, llfree_get_at, get_local}
use llfree_c.Llfree.Upper.{IsUpper}
use llfree_c.Llfree.Upper.Requests.{IsRequest, HasLocal, u32_two_pow}
use llfree_c.Llfree.Upper.Ends.{Gives, Gives-eq, Gives-from, refuse-Gives, serve_lem}
use llfree_c.Llfree.Upper.Reserve.{trees_steal-step}
use llfree_c.Llfree.Upper.OwnSlot.{get_local-GivesMoved}
use llfree_c.Llfree.Upper.Moved.{follow-GivesMoved}
use llfree_c.Llfree.Upper.Others.{others-Gives}

module _ {frames : ℕ} {shape : ℕ → Option (Option ℕ)} (few : frames < 2 ^ 41) (request : Request)
    (small : request.order ≤ 6) (frame : ℕ) (q : IsRequest frames shape request (some frame)) where
  get_at_global-Gives :
      (s : Llfree)
      → IsUpper frames shape [] s
      → Gives frames shape (2 ^ request.order) (some frame) s.lower (get_at_global s frame request)
  unfolding get_at_global
  get_at_global-Gives s u =
      let word = u32_two_pow request.order small in
      let positive = two_pow_pos request.order in
      let (room, aligned) = q.fits in
      let frame_lt : frame < frames = omega arith in
      let k = frame / 4096 in
      elim (trees_steal-step s k (2 ^ request.order) request.class u (omega (arith, frame_lt))
        q.class_lt) [
          | inl refused ↦
              Gives-eq (rw (word, refused) refl)
                (others-Gives few request small (some frame) q.fits s q.class_lt u)
          | inr (t, class', ran, u') ↦
              elim (serve_lem (record s { trees = t }) k frame request.order (some frame) few small
                u' frame_lt refl (refl, room, aligned)) [
                  | inl (l, f, served, u'', is_wanted, run) ↦ record {
                    state = record s { trees = t; lower = l };
                    res = llfree_ok f class';
                    ran = rw (word, ran, served) refl;
                    upper = u'';
                    end = inl (record {
                      frame = f;
                      class = class';
                      tree = k;
                      done = refl;
                      is_wanted = is_wanted;
                      taken = run;
                    });
                  }
                  | inr (t', served, back, u'', same) ↦
                      refuse-Gives t' (cc (word, ran, served, back)) u'' same
                ]
        ]

  pub llfree_get_at-Gives :
      (s : Llfree)
      → IsUpper frames shape [] s
      → Gives frames shape (2 ^ request.order) (some frame) s.lower (llfree_get_at s frame request)
  unfolding llfree_get_at
  llfree_get_at-Gives s u = find request.local refl
    where
      inside : ltb frame s.lower.frames ≡ true
      inside =
          let positive = two_pow_pos request.order in
          let (room, _) = q.fits in ltb-true _ _ (omega (arith, u.ready.size))

      find :
          (m : Option ℕ)
          → request.local ≡ m
          → Gives frames shape
              (2 ^ request.order)
              (some frame)
              s.lower
              (llfree_get_at s frame request)
      find none e = Gives-eq (cc (inside, e)) (get_at_global-Gives s u)
      find (some index) e =
          let word = u32_two_pow request.order small in
          follow-GivesMoved
            (get_local s request.class index request.order (2 ^ request.order) (some frame))
            (llfree_get_at s frame request)
            (get_local-GivesMoved few request.order small (some frame) q.fits request.class index
              q.len q.class_lt q.configured (subst (λ m. HasLocal m q.len) e q.local_lt) s u)
            (λ t f class start ran. cc (inside, e, word, ran))
            (λ t start ran _ u' same.
              Gives-eq (cc (inside, e, word, ran)) (Gives-from same (get_at_global-Gives t u')))
