-- ===== src/Llfree/Upper/Slots.antt =====
-- The slots of src/local.c under the invariant of src/llfree.c: frames go between a slot and the hand
-- of the operation.
use mathlib.Core.Path.{subst}
use llfree_c.Base.{
  ℕ, ◌+◌, ◌-◌, ◌*◌, ◌/◌, ◌%◌, ◌^◌, ◌≤◌, ◌<◌, ◌≡◌, ◌⊎◌, inl, inr, refl, sym, ap, ◌∙◌, arith, Bool,
  true, false, ◌==◌, not, ◌||◌, leb, leb-true, ltb-true, Bool-cases, Option-cases, Option, some,
  none, List, ◌∷◌, length, get_elem?, get_elem?_of_lt, total-ge,
}
use llfree_c.Utils.{tree_from_row}
use llfree_c.Local.{
  Reserved, Locals, LocalResult, make_result, ll_reserved_dec, ll_reserved_inc,
  ll_reserved_set_start, get_slot, put_slot, ll_local_get, ll_local_put, ll_local_set_start,
}
use llfree_c.Local.Laws.{HasSlot, HasSlot_of_get, get_slot_lem, ll_reserved_dec_lem}
use llfree_c.Llfree.{Llfree}
use llfree_c.Llfree.Upper.{slot_frames, class_frames, held, IsSlot, IsLocal, IsUpper, count_at}
use llfree_c.Llfree.Upper.Steps.{slot_step}
use llfree_c.Llfree.Upper.Entries.{frames-le}

-- A slot that a class has.
pub slot_at :
    (frames : ℕ) (shape : ℕ → Option (Option ℕ)) (l : Locals) (c x n : ℕ)
    → IsLocal frames shape l
    → c < 8
    → shape c ≡ some (some n)
    → x < n
    → (r : Reserved) × (get_slot l c x ≡ some r)
slot_at frames shape l c x n local lt configured inside =
    let (slots, at, count) = find (get_elem? l.classes c) refl in
    let (r, here) = get_elem?_of_lt slots x (omega (arith, count)) in
    (
      r,
      get_slot_lem l c x r
          (record { slots = slots; class_ok = ltb-true _ _ lt; at_class = at; at_slot = here }),
    )
  where
    find :
        (m : Option (Option (List Reserved)))
        → get_elem? l.classes c ≡ m
        → (slots : List Reserved) × (get_elem? l.classes c ≡ some (some slots)) × (length slots ≡ n)
    find none e = ground (arith, ap count_at e, local.shaped c, configured)
    find (some none) e = ground (arith, ap count_at e, local.shaped c, configured)
    find (some (some slots)) e =
        (slots, e, ground (arith, sym (ap count_at e) ∙ local.shaped c ∙ configured))

-- The frames on one slot are among those on all of them.
slot_frames-le :
    (l : Locals) (c x i : ℕ) (r : Reserved) → HasSlot l c x r → slot_frames i r ≤ held l i
slot_frames-le l c x i r has = omega (
  arith,
  total-ge (slot_frames i) has.slots x r has.at_slot,
  total-ge (class_frames i) l.classes c (some has.slots) has.at_class,
)

-- A row of the tree asked for, if one is.
abbrev pub fits_row : Option ℕ → ℕ → Bool
fits_row none row = true
fits_row (some t) row = tree_from_row row == t

pub fits_row-dec :
    (old r : Reserved) (tree : Option ℕ) (n : ℕ)
    → ll_reserved_dec old tree n ≡ some r
    → fits_row tree old.start_row ≡ true
unfolding ll_reserved_dec
fits_row-dec old r none n e = refl
fits_row-dec old r (some t) n e = ground (arith, e)

pub present-IsSlot :
    {frames : ℕ} {shape : ℕ → Option (Option ℕ)} {hand : List (ℕ × ℕ)} (s : Llfree) (c x : ℕ)
    (r : Reserved)
    → IsUpper frames shape hand s
    → HasSlot s.local c x r
    → IsSlot frames r
present-IsSlot s c x r u has = u.slots.good c (some has.slots) has.at_class x r has.at_slot

module _ {frames : ℕ} {shape : ℕ → Option (Option ℕ)} {hand : List (ℕ × ℕ)} where
  -- `n` frames of a slot come to the hand.
  pub dec_step :
      (s : Llfree) (c x n : ℕ) (old r : Reserved) (tree : Option ℕ)
      → IsUpper frames shape hand s
      → get_slot s.local c x ≡ some old
      → ll_reserved_dec old tree n ≡ some r
      → IsUpper frames shape
          ((tree_from_row old.start_row, n) ∷ hand)
          (record s { local = put_slot s.local c x r })
        × (old.start_row * 64 < frames)
        × (fits_row tree old.start_row ≡ true)
  dec_step s c x n old r tree u at taken =
      let has = HasSlot_of_get s.local c x old at in
      let (present, enough, after) = ll_reserved_dec_lem old r tree n taken in
      let good = present-IsSlot s c x old u has in
      let new : IsSlot frames (record old { free = old.free - n }) = record {
        bounded = omega (arith, good.bounded);
        inside = good.inside;
      } in
      (
        subst
            (λ q.
              IsUpper frames shape ((tree_from_row old.start_row, n) ∷ hand)
                (record s { local = put_slot s.local c x q }))
            after (slot_step u has new (λ i. ground (arith, present, enough))),
        good.inside present,
        fits_row-dec old r tree n taken,
      )

  -- `ll_local_get` takes the frames to the hand, or changes nothing.
  pub ll_local_get-step :
      (s : Llfree) (c x n : ℕ) (old : Reserved) (tree : Option ℕ)
      → IsUpper frames shape hand s
      → get_slot s.local c x ≡ some old
      → ((l : Locals) × (ll_local_get s.local c x tree n ≡ some (l, make_result true c old))
          × IsUpper frames shape ((tree_from_row old.start_row, n) ∷ hand) (record s { local = l })
          × (old.start_row * 64 < frames)
          × (fits_row tree old.start_row ≡ true))
        ⊎ (ll_local_get s.local c x tree n ≡ some (s.local, make_result false c old))
  unfolding ll_local_get
  ll_local_get-step s c x n old tree u at = elim (Option-cases (ll_reserved_dec old tree n)) [
    | inl refused ↦ inr (rw (at, refused) refl)
    | inr (r, taken) ↦
        let (u', inside, fits) = dec_step s c x n old r tree u at taken in
        inl (put_slot s.local c x r, rw (at, taken) refl, u', inside, fits)
  ]

  -- `ll_local_put` takes the frames out of the hand, or changes nothing.
  pub ll_local_put-step :
      (s : Llfree) (c x k n : ℕ) (r : Reserved)
      → IsUpper frames shape ((k, n) ∷ hand) s
      → k < (frames + 4095) / 4096
      → get_slot s.local c x ≡ some r
      → ((l : Locals) × (ll_local_put s.local c x k n ≡ some (l, true))
          × IsUpper frames shape hand (record s { local = l }))
        ⊎ (ll_local_put s.local c x k n ≡ some (s.local, false))
  unfolding ll_local_put ll_reserved_inc
  ll_local_put-step s c x k n r u lt at =
      let has = HasSlot_of_get s.local c x r at in
      let good = present-IsSlot s c x r u has in
      let bound = frames-le k u lt in
      let share = slot_frames-le s.local c x k r has in
      elim (Bool-cases (not r.present || not (tree_from_row r.start_row == k))) [
        | inl other ↦ inr (rw (at, other) refl)
        | inr same ↦
            let present : r.present ≡ true = ground (arith, same) in
            let tree : k ≡ tree_from_row r.start_row = ground (arith, same) in
            let mine : slot_frames k r ≡ r.free = ground (arith, present, tree) in
            let sum : r.free + n ≤ 4096 = ground (arith, bound, share, mine) in
            let word : (r.free + n) % 2 ^ 32 ≡ r.free + n = omega arith in
            let field : (r.free + n) % 2 ^ 28 ≡ r.free + n = omega arith in
            let fits : leb (r.free + n) 4096 ≡ true = leb-true _ _ sum in
            let q : Reserved = record r { free = r.free + n } in
            inl (
              put_slot s.local c x q,
              rw (at, same, word, field, fits) refl,
              slot_step u has (record { bounded = sum; inside = good.inside })
                  (λ i. ground (arith, present, tree)),
            )
      ]

  -- `ll_local_set_start` moves the start inside of the tree, or changes nothing.
  pub ll_local_set_start-step :
      (s : Llfree) (c x row : ℕ) (r : Reserved)
      → frames < 2 ^ 41
      → IsUpper frames shape hand s
      → row * 64 < frames
      → get_slot s.local c x ≡ some r
      → (l : Locals) × (res : LocalResult) × (ll_local_set_start s.local c x row ≡ some (l, res))
        × IsUpper frames shape hand (record s { local = l })
  unfolding ll_local_set_start ll_reserved_set_start
  ll_local_set_start-step s c x row r few u inside at =
      let has = HasSlot_of_get s.local c x r at in
      let good = present-IsSlot s c x r u has in
      elim (Bool-cases (not r.present || not (tree_from_row r.start_row == tree_from_row row))) [
        | inl other ↦ (s.local, make_result false c r, rw (at, other) refl, u)
        | inr same ↦
            let present : r.present ≡ true = ground (arith, same) in
            let tree : tree_from_row r.start_row ≡ tree_from_row row = ground (arith, same) in
            let bits : row % 2 ^ 35 ≡ row = omega (arith, few, inside) in
            let q : Reserved = record r { start_row = row } in
            (
              put_slot s.local c x q,
              make_result true c r,
              rw (at, same, bits) refl,
              slot_step u has (record { bounded = good.bounded; inside = λ e. inside })
                  (λ i. ground (arith, present, tree)),
            )
      ]
