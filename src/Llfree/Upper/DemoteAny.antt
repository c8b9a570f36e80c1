-- ===== src/Llfree/Upper/DemoteAny.antt =====
-- The searches of `ll_local_demote_any` in src/local.c.
use native.Mathlib.Nat.{mod-lt}
use llfree_c.Base.{
  ℕ, zero, suc, ◌+◌, ◌-◌, ◌%◌, ◌<◌, ◌≡◌, inl, inr, refl, ap, ◌∙◌, arith, true, false, ◌==◌, not,
  ◌&&◌, Bool-cases, Option-cases, Option, some, none, List, get_elem?,
}
use llfree_c.Types.{PolicyFn}
use llfree_c.Tree.{is_demote}
use llfree_c.Local.{
  Reserved, Locals, ll_reserved_new, ll_reserved_dec, ll_reserved_take, get_slot, put_slot,
  slot_count,
}
use llfree_c.Local.Laws.{HasSlot_of_get, ll_reserved_dec_lem}
use llfree_c.Local.Steal.{
  Demoted, or_zero, place_demoted, demote_slots, demote_classes, ll_local_demote_any,
}
use llfree_c.Llfree.{Llfree}
use llfree_c.Llfree.Upper.{IsUpper}
use llfree_c.Llfree.Upper.Steps.{hand_step}
use llfree_c.Llfree.Upper.Slots.{slot_at, present-IsSlot, fits_row-dec}
use llfree_c.Llfree.Upper.Swaps.{clear_step}
use llfree_c.Llfree.Upper.Demote.{Demotes, place_demoted_lem}
use llfree_c.Llfree.Upper.Steal.{class_at, count_of-configured}

-- One round of each loop.
module _ (left j len target c n : ℕ) (index tree : Option ℕ) (l : Locals) (old : Reserved)
    (at : get_slot l target ((or_zero index + j) % len) ≡ some old) where
  demote_slots-next :
      ll_reserved_dec old tree n ≡ none
      → demote_slots (suc left) j len target c index tree n l
        ≡ demote_slots left (j + 1) len target c index tree n l
  unfolding demote_slots ll_reserved_take
  demote_slots-next refused = cc (at, refused)

  demote_slots-hit :
      (r : Reserved) (l' : Locals) (d : Demoted)
      → ll_reserved_dec old tree n ≡ some r
      → place_demoted r c index (
          put_slot l target
            ((or_zero index + j) % len)
            (record { present = false; free = 0; start_row = 0 }))
        ≡ some (l', d)
      → demote_slots (suc left) j len target c index tree n l ≡ some (l', some d)
  unfolding demote_slots ll_reserved_take ll_reserved_new
  demote_slots-hit r l' d taken placed = cc (at, taken, placed)

module _ (left i c n : ℕ) (index tree : Option ℕ) (policy : PolicyFn) (l : Locals)
    (slots : Option (List Reserved)) (at : get_elem? l.classes ((i + c) % 8) ≡ some slots) where
  demote_classes-skip :
      (not (slot_count slots == 0) && is_demote (policy c ((i + c) % 8) n).type) ≡ false
      → demote_classes (suc left) i c index tree n policy l
        ≡ demote_classes left (i + 1) c index tree n policy l
  unfolding demote_classes
  demote_classes-skip skip = cc (at, skip)

  demote_classes-next :
      (not (slot_count slots == 0) && is_demote (policy c ((i + c) % 8) n).type) ≡ true
      → (l' : Locals)
      → demote_slots (slot_count slots) 0 (slot_count slots) ((i + c) % 8) c index tree n l
        ≡ some (l', none)
      → demote_classes (suc left) i c index tree n policy l
        ≡ demote_classes left (i + 1) c index tree n policy l'
  unfolding demote_classes
  demote_classes-next try l' ran = cc (at, try, ran)

  demote_classes-hit :
      (not (slot_count slots == 0) && is_demote (policy c ((i + c) % 8) n).type) ≡ true
      → (l' : Locals) (d : Demoted)
      → demote_slots (slot_count slots) 0 (slot_count slots) ((i + c) % 8) c index tree n l
        ≡ some (l', some d)
      → demote_classes (suc left) i c index tree n policy l ≡ some (l', some d)
  unfolding demote_classes
  demote_classes-hit try l' d ran = cc (at, try, ran)

module _ (frames : ℕ) (shape : ℕ → Option (Option ℕ)) (hand : List (ℕ × ℕ)) (s : Llfree)
    (u : IsUpper frames shape hand s) (c n : ℕ) (class_lt : c < 8) (index tree : Option ℕ) where
  abbrev pub DemoteEnd : Locals → Option Demoted → Type 0
  DemoteEnd l none = l ≡ s.local
  DemoteEnd l (some d) = Demotes frames shape hand (record s { local = l }) n tree d

  -- The slot is cleared, its frames are in the hand, and what is left of it is placed.
  demote_slot_lem :
      (target x : ℕ) (old r : Reserved)
      → get_slot s.local target x ≡ some old
      → ll_reserved_dec old tree n ≡ some r
      → (l : Locals) × (d : Demoted) × (place_demoted r c index
            (put_slot s.local target x (record { present = false; free = 0; start_row = 0 }))
          ≡ some (l, d))
        × DemoteEnd l (some d)
  demote_slot_lem target x old r at taken =
      let (present, enough, after) = ll_reserved_dec_lem old r tree n taken in
      let good = present-IsSlot s target x old u (HasSlot_of_get s.local target x old at) in
      let bound = good.bounded in
      let cleared = clear_step s target x old u at in
      let (l, d, placed, end) =
        place_demoted_lem
          (record s {
            local = put_slot s.local target x (record { present = false; free = 0; start_row = 0 });
          })
          c n (old.free - n) old.start_row index tree
          (hand_step cleared (λ i. ground (arith, present, enough))) class_lt (omega (arith, bound))
          (good.inside present) (fits_row-dec old r tree n taken) in
      (l, d, cc (present, after, placed), end)

  demote_slots_lem :
      (left j target len : ℕ)
      → target < 8
      → shape target ≡ some (some len)
      → 0 < len
      → (l : Locals) × (found : Option Demoted) × (demote_slots left j len target c index tree n
            s.local
          ≡ some (l, found))
        × DemoteEnd l found
  unfolding demote_slots
  demote_slots_lem zero j target len lt configured some_slots = (s.local, none, refl, refl)
  demote_slots_lem (suc left) j target len lt configured some_slots =
      let x = (or_zero index + j) % len in
      let (old, at) =
        slot_at frames shape s.local target x len u.slots lt configured
          (mod-lt (or_zero index + j) some_slots) in
      let (l, found, ran, end) =
        demote_slots_lem left (j + 1) target len lt configured some_slots in
      elim (Option-cases (ll_reserved_dec old tree n)) [
        | inl refused ↦ (
          l,
          found,
          demote_slots-next left j len target c n index tree s.local old at refused ∙ ran,
          end,
        )
        | inr (r, taken) ↦
            let (l', d, placed, got) = demote_slot_lem target x old r at taken in
            (
              l',
              some d,
              demote_slots-hit left j len target c n index tree s.local old at r l' d taken placed,
              got,
            )
      ]

  demote_classes_lem :
      (left i : ℕ) (policy : PolicyFn)
      → (l : Locals) × (found : Option Demoted) × (demote_classes left i c index tree n policy
            s.local
          ≡ some (l, found))
        × DemoteEnd l found
  unfolding demote_classes
  demote_classes_lem zero i policy = (s.local, none, refl, refl)
  demote_classes_lem (suc left) i policy =
      let target = (i + c) % 8 in
      let target_lt : target < 8 = mod-lt (i + c) (omega arith) in
      let (slots, at, configured) = class_at frames shape s.local target u.slots target_lt in
      let (l, res, ran, end) = demote_classes_lem left (i + 1) policy in
      let len = slot_count slots in
      elim (Bool-cases (not (len == 0) && is_demote (policy c target n).type)) [
        | inr skip ↦ (
          l,
          res,
          demote_classes-skip left i c n index tree policy s.local slots at skip ∙ ran,
          end,
        )
        | inl try ↦
            let some_slots : (len == 0) ≡ false = ground (arith, try) in
            let (l', found, searched, got) =
              demote_slots_lem len 0 target len target_lt
                (configured ∙ ap some (count_of-configured slots some_slots))
                (ground (arith, some_slots)) in
            elim found
                as (λ (f : Option Demoted).
                  demote_slots len 0 len target c index tree n s.local ≡ some (l', f)
                  → DemoteEnd l' f
                  → (m : Locals) × (out : Option Demoted) × (demote_classes (suc left) i c index
                        tree n policy s.local
                      ≡ some (m, out))
                    × DemoteEnd m out) [
                      | none ↦ λ e same. (
                        l,
                        res,
                        demote_classes-next left i c n index tree policy s.local slots at try l' e
                            ∙ ap (demote_classes left (i + 1) c index tree n policy) same
                            ∙ ran,
                        end,
                      )
                      | some d ↦ λ e done. (
                        l',
                        some d,
                        demote_classes-hit left i c n index tree policy s.local slots at try l' d e,
                        done,
                      )
                    ]
              searched got
      ]

  pub ll_local_demote_any-step :
      (policy : PolicyFn)
      → (l : Locals) × (found : Option Demoted) × (ll_local_demote_any s.local c index tree n policy
          ≡ some (l, found))
        × DemoteEnd l found
  unfolding ll_local_demote_any
  ll_local_demote_any-step policy = demote_classes_lem 7 1 policy
