-- ===== src/Llfree/Upper/Others.antt =====
-- `steal_local` and `demote_local` of src/llfree.c under the invariant: the slots
-- of other requests.
use mathlib.Core.Path.{subst}
use llfree_c.Base.{
  ℕ, ◌^◌, ◌≤◌, ◌<◌, ◌≡◌, inl, inr, refl, ◌∙◌, arith, if◌then◌else◌, Bool-cases, Option, some, none,
  [], ◌∷◌, ◌>>=◌,
}
use llfree_c.Types.{llfree_ok, Request}
use llfree_c.Utils.{tree_from_row, frame_from_row}
use llfree_c.Local.{Locals}
use llfree_c.Local.Steal.{Demoted, or_zero, ll_local_demote_any}
use llfree_c.Lower.Ready.{Taken}
use llfree_c.Llfree.{Llfree, unreserve, tree_of}
use llfree_c.Llfree.Get.{or_else, steal_local, demote_local}
use llfree_c.Llfree.Upper.{IsUpper}
use llfree_c.Llfree.Upper.Steps.{hand_step}
use llfree_c.Llfree.Upper.Entries.{unreserve_lem}
use llfree_c.Llfree.Upper.Steal.{ll_local_steal-step}
use llfree_c.Llfree.Upper.Requests.{FitsMemory, u32_two_pow}
use llfree_c.Llfree.Upper.Demote.{Demotes}
use llfree_c.Llfree.Upper.DemoteAny.{DemoteEnd, ll_local_demote_any-step}
use llfree_c.Llfree.Upper.Ends.{Gives, Gives-from, refuse-Gives, or_else-Gives, serve_lem}
use llfree_c.Llfree.Upper.OwnSlot.{fits_tree}

module _ {frames : ℕ} {shape : ℕ → Option (Option ℕ)} (few : frames < 2 ^ 41) (request : Request)
    (small : request.order ≤ 6) (wanted : Option ℕ)
    (fits : FitsMemory frames (2 ^ request.order) wanted) where
  pub steal_local-Gives :
      (s : Llfree)
      → IsUpper frames shape [] s
      → Gives frames shape (2 ^ request.order) wanted s.lower (steal_local s request wanted)
  unfolding steal_local
  steal_local-Gives s u =
      let word = u32_two_pow request.order small in
      let (l, r, ran, end) =
        ll_local_steal-step frames shape [] s u (or_zero request.local) (2 ^ request.order)
          (tree_of wanted) request.class s.policy in
      elim end [
        | inr (failed, same) ↦ refuse-Gives s (cc (word, ran, failed, same)) u refl
        | inl (found, row_lt, fit, u') ↦
            elim (serve_lem (record s { local = l }) (tree_from_row r.start_row)
              (frame_from_row r.start_row) request.order wanted few small u'
              (omega (arith, few, row_lt)) refl
              (fits_tree frames request.order r.start_row wanted fits fit)) [
                | inl (l', frame, served, u'', is_wanted, run) ↦ record {
                  state = record s { local = l; lower = l' };
                  res = llfree_ok frame r.class;
                  ran = cc (word, ran, found, served);
                  upper = u'';
                  end = inl (record {
                    frame = frame;
                    class = r.class;
                    tree = tree_from_row r.start_row;
                    done = refl;
                    is_wanted = is_wanted;
                    taken = run;
                  });
                }
                | inr (t, served, back, u'', same) ↦
                    refuse-Gives t (cc (word, ran, found, served, back)) u'' same
              ]
      ]

  -- The rest of the demoted slot, or the slot that it replaces, goes back to its tree.
  left_over_lem :
      (s : Llfree) (d : Demoted)
      → Demotes frames shape [] s (2 ^ request.order) (tree_of wanted) d
      → (s' : Llfree) × ((if d.unreserve
            then unreserve s (tree_from_row d.unres_row) d.unres_free d.unres_class
            else some s)
          ≡ some s')
        × IsUpper frames shape ((tree_from_row d.row, 2 ^ request.order) ∷ []) s'
        × (s'.lower ≡ s.lower)
  left_over_lem s d found = elim (Bool-cases d.unreserve) [
    | inl more ↦
        let row_lt = found.unres_lt more in
        let (s', ran, u', same, _) =
          unreserve_lem s (tree_from_row d.unres_row) d.unres_free d.unres_class
            (hand_step found.upper (λ i. ground (arith, more))) (omega (arith, row_lt))
            found.class_lt in
        (s', cc (more, ran), u', same)
    | inr nothing ↦ (s, cc nothing, hand_step found.upper (λ i. ground (arith, nothing)), refl)
  ]

  demote_local-served :
      (s : Llfree) (l : Locals) (d : Demoted)
      → ll_local_demote_any s.local request.class request.local
          (tree_of wanted)
          (2 ^ request.order)
          s.policy
        ≡ some (l, some d)
      → Demotes frames shape [] (record s { local = l }) (2 ^ request.order) (tree_of wanted) d
      → Gives frames shape (2 ^ request.order) wanted s.lower (demote_local s request wanted)
  unfolding demote_local
  demote_local-served s l d ran found =
      let word = u32_two_pow request.order small in
      let (t, gave, u, same) = left_over_lem (record s { local = l }) d found in
      let row_lt = found.row_lt in
      elim (serve_lem t (tree_from_row d.row) (frame_from_row d.row) request.order wanted few small
        u (omega (arith, few, row_lt)) refl
        (fits_tree frames request.order d.row wanted fits found.fits)) [
          | inl (l', frame, served, u', is_wanted, run) ↦ record {
            state = record t { lower = l' };
            res = llfree_ok frame request.class;
            ran = cc (word, ran, gave, served);
            upper = u';
            end = inl (record {
              frame = frame;
              class = request.class;
              tree = tree_from_row d.row;
              done = refl;
              is_wanted = is_wanted;
              taken =
                  subst (λ m. Taken frames m l' (tree_from_row d.row) (2 ^ request.order) frame)
                    same run;
            });
          }
          | inr (t', served, back, u', same') ↦
              refuse-Gives t' (cc (word, ran, gave, served, back)) u' (same' ∙ same)
        ]

  pub demote_local-Gives :
      (s : Llfree)
      → request.class < 8
      → IsUpper frames shape [] s
      → Gives frames shape (2 ^ request.order) wanted s.lower (demote_local s request wanted)
  unfolding demote_local
  demote_local-Gives s class_lt u =
      let word = u32_two_pow request.order small in
      let (l, found, ran, end) =
        ll_local_demote_any-step frames shape [] s u request.class (2 ^ request.order) class_lt
          request.local (tree_of wanted) s.policy in
      elim found
          as (λ (f : Option Demoted).
            ll_local_demote_any s.local request.class request.local (tree_of wanted)
                (2 ^ request.order) s.policy
              ≡ some (l, f)
            → DemoteEnd frames shape [] s u request.class (2 ^ request.order) class_lt request.local
                (tree_of wanted) l f
            → Gives frames shape (2 ^ request.order) wanted s.lower
                (demote_local s request wanted)) [
                  | none ↦ λ e same. refuse-Gives s (cc (word, e, same)) u refl
                  | some d ↦ λ e done. demote_local-served s l d e done
                ]
        ran end

  -- First the steal, then the demotion.
  pub others-Gives :
      (s : Llfree)
      → request.class < 8
      → IsUpper frames shape [] s
      → Gives frames shape (2 ^ request.order) wanted s.lower (
          steal_local s request wanted >>= λ stolen.
          or_else stolen (λ t. demote_local t request wanted))
  others-Gives s class_lt u =
      or_else-Gives (steal_local s request wanted) (λ t. demote_local t request wanted)
        (steal_local-Gives s u) (λ t u' same. Gives-from same (demote_local-Gives t class_lt u'))
