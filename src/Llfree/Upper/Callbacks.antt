-- ===== src/Llfree/Upper/Callbacks.antt =====
-- `reserve_or_steal_cb` and `steal_cb` of src/llfree.c under the invariant.
use mathlib.Core.Path.{subst}
use native.Mathlib.Nat.{mod-lt}
use llfree_c.Base.{
  ℕ, ◌+◌, ◌-◌, ◌/◌, ◌%◌, ◌^◌, ◌≤◌, ◌<◌, ◌≡◌, inl, inr, refl, sym, ap, ◌∙◌, arith, false, ◌==◌,
  if◌then◌else◌, Bool-cases, Option, some, none, [], ◌∷◌,
}
use llfree_c.Types.{Outcome, llfree_ok, llfree_err, memory}
use llfree_c.Utils.{frame_from_tree}
use llfree_c.Trees.{Taken}
use llfree_c.Local.{ll_local_class_locals}
use llfree_c.Lower.State.{Lower}
use llfree_c.Lower.Ready
use llfree_c.Llfree.{
  Llfree, lower_get_of, swap_reserved, slots_of, get_from_taken, reserve_or_steal_cb, steal_cb,
}
use llfree_c.Llfree.Upper.{IsUpper}
use llfree_c.Llfree.Upper.Steps.{hand_step}
use llfree_c.Llfree.Upper.Entries.{lower_get_of_lem}
use llfree_c.Llfree.Upper.Requests.{ll_local_class_locals_lem, u32_two_pow}
use llfree_c.Llfree.Upper.Ends.{Gives, Gives-eq, refuse-Gives, serve_lem}
use llfree_c.Llfree.Upper.Reserve.{
  taken_frames, trees_steal-step, trees_reserve_or_steal-step, give_back_lem, swap_reserved_lem,
}

-- A class with slots is configured.
pub slots_of-configured : (k : Option ℕ) → (slots_of k == 0) ≡ false → k ≡ some (slots_of k)
slots_of-configured none e = ground (arith, e)
slots_of-configured (some n) e = refl

get_from_taken-hit :
    (order : ℕ) (s s' : Llfree) (index idx : ℕ) (taken : Taken) (k : Option ℕ) (l : Lower)
    (res : Outcome) (frame : ℕ)
    → (2 ^ order) % 2 ^ 32 ≡ 2 ^ order
    → ll_local_class_locals s.local taken.class ≡ some k
    → (slots_of k == 0) ≡ false
    → lower_get_of s (frame_from_tree idx) order none ≡ some (record s { lower = l }, res)
    → res ≡ llfree_ok frame 0
    → (if taken.reserved
        then swap_reserved
            (record s { lower = l })
            taken.class
            (index % slots_of k)
            idx
            (taken.free - 2 ^ order)
        else some (record s { lower = l }))
      ≡ some s'
    → get_from_taken order index idx s taken ≡ some (s', llfree_ok frame taken.class)
unfolding get_from_taken
get_from_taken-hit order s s' index idx taken k l res frame word read some_slots ran done swapped =
    rw (word, read, some_slots, ran, done, swapped) refl

module _ {frames : ℕ} {shape : ℕ → Option (Option ℕ)} (few : frames < 2 ^ 41) (order : ℕ)
    (small : order ≤ 6) where
  pub steal_cb-Gives :
      (s : Llfree) (class idx : ℕ)
      → class < 8
      → IsUpper frames shape [] s
      → idx < (frames + 4095) / 4096
      → Gives frames shape (2 ^ order) none s.lower (steal_cb order class idx s)
  unfolding steal_cb
  steal_cb-Gives s class idx class_lt u lt =
      let word = u32_two_pow order small in
      elim (trees_steal-step s idx (2 ^ order) class u lt class_lt) [
        | inl refused ↦ refuse-Gives s (cc (word, refused)) u refl
        | inr (t, class', ran, u') ↦
            elim (serve_lem (record s { trees = t }) idx (frame_from_tree idx) order none few small
              u' (omega (arith, lt)) (omega arith) (record {})) [
                | inl (l', frame, served, u'', _, taken) ↦ record {
                  state = record s { trees = t; lower = l' };
                  res = llfree_ok frame class';
                  ran = rw (word, ran, served) refl;
                  upper = u'';
                  end = inl (record {
                    frame = frame;
                    class = class';
                    tree = idx;
                    done = refl;
                    is_wanted = record {};
                    taken = taken;
                  });
                }
                | inr (t', served, back, u'', same) ↦
                    refuse-Gives t' (cc (word, ran, served, back)) u'' same
              ]
      ]

  get_from_taken-served :
      (s : Llfree) (index idx : ℕ) (taken : Taken) (k : Option ℕ) (l : Lower) (res : Outcome)
      (frame : ℕ)
      → IsUpper frames shape
          ((idx, if taken.reserved then taken.free - 2 ^ order else 0) ∷ [])
          (record s { lower = l })
      → idx < (frames + 4095) / 4096
      → taken.free ≤ 4096
      → taken.class < 8
      → shape taken.class ≡ some k
      → ll_local_class_locals s.local taken.class ≡ some k
      → (slots_of k == 0) ≡ false
      → lower_get_of s (frame_from_tree idx) order none ≡ some (record s { lower = l }, res)
      → res ≡ llfree_ok frame 0
      → Ready.Taken frames s.lower l idx (2 ^ order) frame
      → Gives frames shape (2 ^ order) none s.lower (get_from_taken order index idx s taken)
  get_from_taken-served s index idx taken k l res frame u lt bound class_lt configured read
        some_slots ran done run =
      let word = u32_two_pow order small in
      let after = record s { lower = l } in
      elim (Bool-cases taken.reserved) [
        | inl reserved ↦
            let len = slots_of k in
            let (s', swapped, u', same) =
              swap_reserved_lem after taken.class (index % len) idx (taken.free - 2 ^ order) len few
                (hand_step u (λ i. ground (arith, reserved))) lt (omega (arith, bound)) class_lt
                (configured ∙ ap some (slots_of-configured k some_slots))
                (mod-lt index (ground (arith, some_slots))) in
            record {
              state = s';
              res = llfree_ok frame taken.class;
              ran =
                  get_from_taken-hit order s s' index idx taken k l res frame word read some_slots
                    ran done (cc (reserved, swapped));
              upper = u';
              end = inl (record {
                frame = frame;
                class = taken.class;
                tree = idx;
                done = refl;
                is_wanted = record {};
                taken =
                    subst (λ m. Ready.Taken frames s.lower m idx (2 ^ order) frame) (sym same) run;
              });
            }
        | inr stolen ↦ record {
          state = after;
          res = llfree_ok frame taken.class;
          ran =
              get_from_taken-hit order s after index idx taken k l res frame word read some_slots
                ran done (cc stolen);
          upper = hand_step u (λ i. ground (arith, stolen));
          end = inl (record {
            frame = frame;
            class = taken.class;
            tree = idx;
            done = refl;
            is_wanted = record {};
            taken = run;
          });
        }
      ]

  -- What follows where the tree was taken: the frames taken are in the hand.
  get_from_taken-Gives :
      (s : Llfree) (index idx : ℕ) (taken : Taken)
      → IsUpper frames shape ((idx, taken_frames (2 ^ order) taken) ∷ []) s
      → idx < (frames + 4095) / 4096
      → 2 ^ order ≤ taken.free
      → taken.free ≤ 4096
      → taken.class < 8
      → Gives frames shape (2 ^ order) none s.lower (get_from_taken order index idx s taken)
  unfolding get_from_taken
  get_from_taken-Gives s index idx taken u lt enough bound class_lt =
      let word = u32_two_pow order small in
      let (k, read, configured) =
        ll_local_class_locals_lem frames shape s.local taken.class u.slots class_lt in
      let (back, gave, u_back, same_back) = give_back_lem s idx (2 ^ order) taken u lt class_lt in
      let split : IsUpper frames shape
          ((idx, 2 ^ order) ∷ (idx, if taken.reserved then taken.free - 2 ^ order else 0) ∷ []) s =
        hand_step u (λ i. ground (arith, enough)) in
      elim (Bool-cases (slots_of k == 0)) [
        | inl empty ↦ refuse-Gives back (cc (word, read, empty, gave)) u_back same_back
        | inr some_slots ↦
            let (l, res, ran, end) =
              lower_get_of_lem s idx (frame_from_tree idx) order none few small split
                (omega (arith, lt)) (omega (arith, few, lt)) (record {}) in
            elim end [
              | inl (frame, done, run, _, u') ↦
                  get_from_taken-served s index idx taken k l res frame u' lt bound class_lt
                    configured read some_slots ran done run
              | inr (kept, refused) ↦
                  let failed : lower_get_of s (frame_from_tree idx) order none
                      ≡ some (s, llfree_err memory) =
                    cc (ran, kept, refused) in
                  refuse-Gives back (cc (word, read, some_slots, failed, gave)) u_back same_back
            ]
      ]

  pub reserve_or_steal_cb-Gives :
      (s : Llfree) (class index idx : ℕ)
      → class < 8
      → IsUpper frames shape [] s
      → idx < (frames + 4095) / 4096
      → Gives frames shape (2 ^ order) none s.lower (reserve_or_steal_cb order class index idx s)
  unfolding reserve_or_steal_cb
  reserve_or_steal_cb-Gives s class index idx class_lt u lt =
      let word = u32_two_pow order small in
      elim (trees_reserve_or_steal-step s idx (2 ^ order) class u lt class_lt) [
        | inl refused ↦ refuse-Gives s (cc (word, refused)) u refl
        | inr (t, taken, ran, u', enough, bound, class_lt') ↦ Gives-eq (cc (word, ran)) (
            get_from_taken-Gives (record s { trees = t }) index idx taken u' lt enough bound
              class_lt')
      ]
