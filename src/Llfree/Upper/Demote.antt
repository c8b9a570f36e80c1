-- ===== src/Llfree/Upper/Demote.antt =====
-- `ll_local_demote_any` of src/local.c under the invariant of src/llfree.c.
use llfree_c.Base.{
  ℕ, ◌*◌, ◌≤◌, ◌<◌, ◌≡◌, inl, inr, refl, ap, ◌∙◌, arith, true, if◌then◌else◌, Bool-cases, Option,
  some, none, List, ◌∷◌, get_elem?,
}
use llfree_c.Utils.{tree_from_row}
use llfree_c.Local.{Reserved, Locals, get_slot, put_slot, count_of}
use llfree_c.Local.Laws.{HasSlot_of_get}
use llfree_c.Local.Steal.{Demoted, or_zero, has_slot, place_demoted}
use llfree_c.Llfree.{Llfree}
use llfree_c.Llfree.Upper.{IsUpper}
use llfree_c.Llfree.Upper.Slots.{slot_at, present-IsSlot, fits_row}
use llfree_c.Llfree.Upper.Swaps.{replace_step}
use llfree_c.Llfree.Upper.Steal.{class_at}

-- The slot of the class that is asked for.
has_slot-index :
    (index count : Option ℕ)
    → has_slot index count ≡ true
    → (len : ℕ) × (count ≡ some len) × (or_zero index < len)
has_slot-index none count e = ground (arith, e)
has_slot-index (some i) none e = ground (arith, e)
has_slot-index (some i) (some len) e = (len, refl, ground (arith, e))

-- What the caller gives back to its tree is in the hand.
abbrev pub left_over : Demoted → List (ℕ × ℕ) → List (ℕ × ℕ)
left_over d hand = if d.unreserve then (tree_from_row d.unres_row, d.unres_free) ∷ hand else hand

-- The frames that were found are in the hand.
pub record Demotes (frames : ℕ) (shape : ℕ → Option (Option ℕ)) (hand : List (ℕ × ℕ)) (s : Llfree)
    (n : ℕ) (tree : Option ℕ) (d : Demoted) : Type 0 where
  pub row_lt : d.row * 64 < frames
  pub fits : fits_row tree d.row ≡ true
  pub unres_lt : d.unreserve ≡ true → d.unres_row * 64 < frames
  pub class_lt : d.unres_class < 8
  pub upper : IsUpper frames shape (left_over d ((tree_from_row d.row, n) ∷ hand)) s

place_demoted-slot :
    (r prev : Reserved) (c : ℕ) (index : Option ℕ) (l : Locals) (slots : Option (List Reserved))
    → get_elem? l.classes c ≡ some slots
    → has_slot index (count_of slots) ≡ true
    → get_slot l c (or_zero index) ≡ some prev
    → place_demoted r c index l
      ≡ some (
        put_slot l c (or_zero index) r,
        record {
          row = r.start_row;
          unreserve = prev.present;
          unres_row = prev.start_row;
          unres_class = c;
          unres_free = prev.free;
        },
      )
unfolding place_demoted
place_demoted-slot r prev c index l slots at has got = cc (at, has, got)

module _ {frames : ℕ} {shape : ℕ → Option (Option ℕ)} {hand : List (ℕ × ℕ)} where
  -- What is left of the slot goes to the slot of the class, or is left over.
  pub place_demoted_lem :
      (s : Llfree) (c n free row : ℕ) (index tree : Option ℕ)
      → IsUpper frames shape ((tree_from_row row, free) ∷ (tree_from_row row, n) ∷ hand) s
      → c < 8
      → free ≤ 4096
      → row * 64 < frames
      → fits_row tree row ≡ true
      → (l : Locals) × (d : Demoted) × (place_demoted
            (record { present = true; free = free; start_row = row })
            c
            index
            s.local
          ≡ some (l, d))
        × Demotes frames shape hand (record s { local = l }) n tree d
  unfolding place_demoted
  place_demoted_lem s c n free row index tree u class_lt bound row_lt fit =
      let (slots, at, configured) = class_at frames shape s.local c u.slots class_lt in
      let r : Reserved = record { present = true; free = free; start_row = row } in
      elim (Bool-cases (has_slot index (count_of slots))) [
        | inl has ↦
            let (len, count, inside) = has_slot-index index (count_of slots) has in
            let (prev, got) =
              slot_at frames shape s.local c (or_zero index) len u.slots class_lt
                (configured ∙ ap some count) inside in
            let good =
              present-IsSlot s c (or_zero index) prev u
                (HasSlot_of_get s.local c (or_zero index) prev got) in
            (
              put_slot s.local c (or_zero index) r,
              record {
                row = row;
                unreserve = prev.present;
                unres_row = prev.start_row;
                unres_class = c;
                unres_free = prev.free;
              },
              place_demoted-slot r prev c index s.local slots at has got,
              record {
                row_lt = row_lt;
                fits = fit;
                unres_lt = good.inside;
                class_lt = class_lt;
                upper =
                    replace_step s c (or_zero index) (tree_from_row row) free row prev u bound
                      row_lt refl got;
              },
            )
        | inr no_slot ↦ (
          s.local,
          record {
            row = row;
            unreserve = true;
            unres_row = row;
            unres_class = c;
            unres_free = free;
          },
          cc (at, no_slot),
          record {
            row_lt = row_lt;
            fits = fit;
            unres_lt = λ e. row_lt;
            class_lt = class_lt;
            upper = u;
          },
        )
      ]
