-- ===== src/Llfree/Upper/OwnSlot.antt =====
-- `get_local` of src/llfree.c under the invariant: the slot that the request names.
use mathlib.Core.Path.{subst}
use llfree_c.Base.{
  ℕ, ◌+◌, ◌*◌, ◌/◌, ◌^◌, ◌≤◌, ◌<◌, ◌≡◌, inl, inr, refl, arith, true, false, ◌==◌, if◌then◌else◌,
  Bool-cases, Option, some, none, [], ◌∷◌,
}
use llfree_c.Types.{llfree_ok, llfree_err, memory}
use llfree_c.Utils.{tree_from_row, frame_from_row, row_from_frame}
use llfree_c.Local.{Reserved, make_result, get_slot}
use llfree_c.Llfree.{Llfree, tree_of}
use llfree_c.Llfree.Get.{get_reserved, get_local_once, get_local}
use llfree_c.Llfree.Upper.{IsUpper}
use llfree_c.Llfree.Upper.Entries.{FitsTree}
use llfree_c.Llfree.Upper.Slots.{
  fits_row, slot_at, present-IsSlot, ll_local_get-step, ll_local_set_start-step,
}
use llfree_c.Llfree.Upper.Requests.{FitsMemory}
use llfree_c.Llfree.Upper.Own.{sync_with_global_lem}
use llfree_c.Local.Laws.{HasSlot_of_get}
use llfree_c.Llfree.Upper.Ends.{TakesRun, serve_lem}
use llfree_c.Llfree.Upper.Moved.{GivesMoved, GivesMoved-eq}

-- A run of the memory lies in the tree of the row that was found for it.
pub fits_tree :
    (frames order row : ℕ) (wanted : Option ℕ)
    → FitsMemory frames (2 ^ order) wanted
    → fits_row (tree_of wanted) row ≡ true
    → FitsTree frames wanted order (tree_from_row row)
fits_tree frames order row none fits e = record {}
fits_tree frames order row (some f) (room, aligned) e = (ground (arith, e), room, aligned)

module _ {frames : ℕ} {shape : ℕ → Option (Option ℕ)} (few : frames < 2 ^ 41) (order : ℕ)
    (small : order ≤ 6) (wanted : Option ℕ) (fits : FitsMemory frames (2 ^ order) wanted)
    (c x len : ℕ) (class_lt : c < 8) (configured : shape c ≡ some (some len))
    (inside : x < len) where
  -- After the slot was decremented.
  get_reserved-GivesMoved :
      (s : Llfree) (row : ℕ)
      → IsUpper frames shape ((tree_from_row row, 2 ^ order) ∷ []) s
      → row * 64 < frames
      → fits_row (tree_of wanted) row ≡ true
      → GivesMoved frames shape
          (2 ^ order)
          wanted
          s.lower
          (get_reserved s c x order (2 ^ order) wanted row)
  unfolding get_reserved
  get_reserved-GivesMoved s row u row_lt fit =
      let k = tree_from_row row in
      elim (serve_lem s k (frame_from_row row) order wanted few small u (omega (arith, few, row_lt))
        refl (fits_tree frames order row wanted fits fit)) [
          | inl (l, frame, served, u', is_wanted, run) ↦
              let took : TakesRun frames (2 ^ order) wanted s.lower l (llfree_ok frame c) = record {
                frame = frame;
                class = c;
                tree = k;
                done = refl;
                is_wanted = is_wanted;
                taken = run;
              } in
              elim (Bool-cases (row == row_from_frame frame)) [
                | inl same ↦ record {
                  state = record s { lower = l };
                  res = llfree_ok frame c;
                  start = none;
                  ran = cc (served, same);
                  inside = λ t e. ground (arith, e);
                  upper = u';
                  end = inl took;
                }
                | inr moved ↦
                    let run_lt = run.frame_lt in
                    let (r, at) =
                      slot_at frames shape s.local c x len u'.slots class_lt configured inside in
                    let (l', res, set_start, u'') =
                      ll_local_set_start-step (record s { lower = l }) c x (row_from_frame frame) r
                        few u' (omega (arith, run_lt)) at in
                    record {
                      state = record s { lower = l; local = l' };
                      res = llfree_ok frame c;
                      start = none;
                      ran = cc (served, moved, set_start);
                      inside = λ t e. ground (arith, e);
                      upper = u'';
                      end = inl took;
                    }
              ]
          | inr (t, served, back, u', same) ↦ record {
            state = t;
            res = llfree_err memory;
            start = some k;
            ran = cc (served, back);
            inside = λ t' e. ground (arith, e, row_lt);
            upper = u';
            end = inr (refl, same);
          }
        ]

  slot_tree-lt :
      (s : Llfree) (old : Reserved) (t : ℕ)
      → IsUpper frames shape [] s
      → get_slot s.local c x ≡ some old
      → (if old.present then some (tree_from_row old.start_row) else none) ≡ some t
      → t < (frames + 4095) / 4096
  slot_tree-lt s old t u at e =
      let good = present-IsSlot s c x old u (HasSlot_of_get s.local c x old at) in
      elim (Bool-cases old.present) [
        | inl present ↦ let row = good.inside present in ground (arith, e, present, row)
        | inr absent ↦ ground (arith, e, absent)
      ]

  get_local_once-GivesMoved :
      (s : Llfree)
      → IsUpper frames shape [] s
      → GivesMoved frames shape
          (2 ^ order)
          wanted
          s.lower
          (get_local_once s c x order (2 ^ order) wanted)
  unfolding get_local_once
  get_local_once-GivesMoved s u =
      let (old, at) = slot_at frames shape s.local c x len u.slots class_lt configured inside in
      elim (ll_local_get-step s c x (2 ^ order) old (tree_of wanted) u at) [
        | inl (l, ran, u', row_lt, fit) ↦
            GivesMoved-eq (cc ran)
              (get_reserved-GivesMoved (record s { local = l }) old.start_row u' row_lt fit)
        | inr ran ↦ record {
          state = s;
          res = llfree_err memory;
          start = if old.present then some (tree_from_row old.start_row) else none;
          ran = cc ran;
          inside = λ t e. slot_tree-lt s old t u at e;
          upper = u;
          end = inr (refl, refl);
        }
      ]

  pub get_local-GivesMoved :
      (s : Llfree)
      → IsUpper frames shape [] s
      → GivesMoved frames shape
          (2 ^ order)
          wanted
          s.lower
          (get_local s c x order (2 ^ order) wanted)
  unfolding get_local
  get_local-GivesMoved s u =
      let (old, at) = slot_at frames shape s.local c x len u.slots class_lt configured inside in
      elim (ll_local_get-step s c x (2 ^ order) old (tree_of wanted) u at) [
        | inl (l, ran, u', row_lt, fit) ↦
            GivesMoved-eq (cc ran)
              (get_reserved-GivesMoved (record s { local = l }) old.start_row u' row_lt fit)
        | inr ran ↦ elim (Bool-cases old.present) [
          | inl present ↦
              let k = tree_from_row old.start_row in
              let k_lt : k < (frames + 4095) / 4096 = slot_tree-lt s old k u at (cc present) in
              let (s', synced, done, u', same) =
                sync_with_global_lem s c x len (2 ^ order) (make_result false c old) u class_lt
                  configured inside present k_lt in
              elim (Bool-cases synced) [
                | inl again ↦ GivesMoved-eq (cc (ran, present, done, again)) (
                    subst
                      (λ l.
                        GivesMoved frames shape (2 ^ order) wanted l
                          (get_local_once s' c x order (2 ^ order) wanted))
                      same (get_local_once-GivesMoved s' u'))
                | inr failed ↦ record {
                  state = s';
                  res = llfree_err memory;
                  start = some k;
                  ran = cc (ran, present, done, failed);
                  inside = λ t e. ground (arith, e, k_lt);
                  upper = u';
                  end = inr (refl, same);
                }
              ]
          | inr absent ↦ record {
            state = s;
            res = llfree_err memory;
            start = none;
            ran = cc (ran, absent);
            inside = λ t e. ground (arith, e);
            upper = u;
            end = inr (refl, refl);
          }
        ]
      ]
