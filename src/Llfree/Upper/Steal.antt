-- ===== src/Llfree/Upper/Steal.antt =====
-- `ll_local_steal` of src/local.c under the invariant of src/llfree.c.
use native.Mathlib.Nat.{mod-lt}
use llfree_c.Base.{
  ℕ, zero, suc, ◌+◌, ◌*◌, ◌%◌, ◌<◌, ◌≡◌, ◌⊎◌, inl, inr, refl, sym, ap, ◌∙◌, arith, true, false,
  ◌==◌, not, ◌||◌, Bool-cases, Option-cases, Option, some, none, List, ◌∷◌, get_elem?,
}
use llfree_c.Types.{PolicyFn}
use llfree_c.Utils.{tree_from_row}
use llfree_c.Local.{
  Reserved, Locals, LocalResult, make_result, ll_reserved_dec, get_slot, put_slot, slot_count,
  count_of,
}
use llfree_c.Local.Steal.{may_steal, steal_slots, steal_classes, no_result, ll_local_steal}
use llfree_c.Llfree.{Llfree}
use llfree_c.Llfree.Upper.{IsLocal, IsUpper, count_at}
use llfree_c.Llfree.Upper.Slots.{slot_at, dec_step, fits_row}

-- A class below 8, with the number of its slots.
pub class_at :
    (frames : ℕ) (shape : ℕ → Option (Option ℕ)) (l : Locals) (c : ℕ)
    → IsLocal frames shape l
    → c < 8
    → (slots : Option (List Reserved)) × (get_elem? l.classes c ≡ some slots)
      × (shape c ≡ some (count_of slots))
class_at frames shape l c local lt = find (get_elem? l.classes c) refl
  where
    find :
        (m : Option (Option (List Reserved)))
        → get_elem? l.classes c ≡ m
        → (slots : Option (List Reserved)) × (get_elem? l.classes c ≡ some slots)
          × (shape c ≡ some (count_of slots))
    find none e =
        let (k, configured) = local.eight c lt in
        ground (arith, ap count_at e, local.shaped c, configured)
    find (some slots) e = (slots, e, sym (local.shaped c) ∙ ap count_at e)

-- A class with slots is configured.
pub count_of-configured :
    (slots : Option (List Reserved))
    → (slot_count slots == 0) ≡ false
    → count_of slots ≡ some (slot_count slots)
count_of-configured none e = ground (arith, e)
count_of-configured (some slots) e = refl

-- One round of each loop.
module _ (left j c len index n : ℕ) (tree : Option ℕ) (l : Locals) (old : Reserved)
    (at : get_slot l c ((index + j) % len) ≡ some old) where
  steal_slots-next :
      ll_reserved_dec old tree n ≡ none
      → steal_slots (suc left) j len c index tree n l
        ≡ steal_slots left (j + 1) len c index tree n l
  unfolding steal_slots
  steal_slots-next refused = cc (at, refused)

  steal_slots-hit :
      (r : Reserved)
      → ll_reserved_dec old tree n ≡ some r
      → steal_slots (suc left) j len c index tree n l
        ≡ some (put_slot l c ((index + j) % len) r, some (make_result true c old))
  unfolding steal_slots
  steal_slots-hit r taken = cc (at, taken)

module _ (left i class index n : ℕ) (tree : Option ℕ) (policy : PolicyFn) (l : Locals)
    (slots : Option (List Reserved)) (at : get_elem? l.classes ((i + class) % 8) ≡ some slots) where
  steal_classes-skip :
      (slot_count slots == 0 || not (may_steal (policy class ((i + class) % 8) n).type)) ≡ true
      → steal_classes (suc left) i class index tree n policy l
        ≡ steal_classes left (i + 1) class index tree n policy l
  unfolding steal_classes
  steal_classes-skip skip = cc (at, skip)

  steal_classes-next :
      (slot_count slots == 0 || not (may_steal (policy class ((i + class) % 8) n).type)) ≡ false
      → (l' : Locals)
      → steal_slots (slot_count slots) 0 (slot_count slots) ((i + class) % 8) index tree n l
        ≡ some (l', none)
      → steal_classes (suc left) i class index tree n policy l
        ≡ steal_classes left (i + 1) class index tree n policy l'
  unfolding steal_classes
  steal_classes-next try l' ran = cc (at, try, ran)

  steal_classes-hit :
      (slot_count slots == 0 || not (may_steal (policy class ((i + class) % 8) n).type)) ≡ false
      → (l' : Locals) (res : LocalResult)
      → steal_slots (slot_count slots) 0 (slot_count slots) ((i + class) % 8) index tree n l
        ≡ some (l', some res)
      → steal_classes (suc left) i class index tree n policy l ≡ some (l', res)
  unfolding steal_classes
  steal_classes-hit try l' res ran = cc (at, try, ran)

module _ (frames : ℕ) (shape : ℕ → Option (Option ℕ)) (hand : List (ℕ × ℕ)) (s : Llfree)
    (u : IsUpper frames shape hand s) (index n : ℕ) (tree : Option ℕ) where
  -- The frames that were found are in the hand.
  abbrev pub Stolen : Locals → LocalResult → Type 0
  Stolen l res =
      (res.success ≡ true)
      × (res.start_row * 64 < frames)
      × (fits_row tree res.start_row ≡ true)
      × IsUpper frames shape ((tree_from_row res.start_row, n) ∷ hand) (record s { local = l })

  abbrev SlotsEnd : Locals → Option LocalResult → Type 0
  SlotsEnd l none = l ≡ s.local
  SlotsEnd l (some res) = Stolen l res

  steal_slots_lem :
      (left j c len : ℕ)
      → c < 8
      → shape c ≡ some (some len)
      → 0 < len
      → (l : Locals) × (found : Option LocalResult) × (steal_slots left j len c index tree n s.local
          ≡ some (l, found))
        × SlotsEnd l found
  unfolding steal_slots
  steal_slots_lem zero j c len lt configured some_slots = (s.local, none, refl, refl)
  steal_slots_lem (suc left) j c len lt configured some_slots =
      let jj = (index + j) % len in
      let (old, at) =
        slot_at frames shape s.local c jj len u.slots lt configured
          (mod-lt (index + j) some_slots) in
      let (l, found, ran, end) = steal_slots_lem left (j + 1) c len lt configured some_slots in
      elim (Option-cases (ll_reserved_dec old tree n)) [
        | inl refused ↦
            (l, found, steal_slots-next left j c len index n tree s.local old at refused ∙ ran, end)
        | inr (r, taken) ↦
            let (u', inside, fits) = dec_step s c jj n old r tree u at taken in
            (
              put_slot s.local c jj r,
              some (make_result true c old),
              steal_slots-hit left j c len index n tree s.local old at r taken,
              (refl, inside, fits, u'),
            )
      ]

  steal_classes_lem :
      (left i class : ℕ) (policy : PolicyFn)
      → (l : Locals) × (res : LocalResult) × (steal_classes left i class index tree n policy s.local
          ≡ some (l, res))
        × (Stolen l res ⊎ ((res.success ≡ false) × (l ≡ s.local)))
  unfolding steal_classes
  steal_classes_lem zero i class policy = (s.local, no_result, refl, inr (refl, refl))
  steal_classes_lem (suc left) i class policy =
      let target = (i + class) % 8 in
      let (slots, at, configured) =
        class_at frames shape s.local target u.slots (mod-lt (i + class) (omega arith)) in
      let (l, res, ran, end) = steal_classes_lem left (i + 1) class policy in
      let len = slot_count slots in
      elim (Bool-cases (len == 0 || not (may_steal (policy class target n).type))) [
        | inl skip ↦ (
          l,
          res,
          steal_classes-skip left i class index n tree policy s.local slots at skip ∙ ran,
          end,
        )
        | inr try ↦
            let some_slots : (len == 0) ≡ false = ground (arith, try) in
            let (l', found, searched, stolen) =
              steal_slots_lem len 0 target len (mod-lt (i + class) (omega arith))
                (configured ∙ ap some (count_of-configured slots some_slots))
                (ground (arith, some_slots)) in
            elim found
                as (λ (f : Option LocalResult).
                  steal_slots len 0 len target index tree n s.local ≡ some (l', f)
                  → SlotsEnd l' f
                  → (m : Locals) × (out : LocalResult) × (steal_classes (suc left) i class index
                        tree n policy s.local
                      ≡ some (m, out))
                    × (Stolen m out ⊎ ((out.success ≡ false) × (m ≡ s.local)))) [
                      | none ↦ λ e same. (
                        l,
                        res,
                        steal_classes-next left i class index n tree policy s.local slots at try l'
                              e
                            ∙ ap (steal_classes left (i + 1) class index tree n policy) same
                            ∙ ran,
                        end,
                      )
                      | some out ↦ λ e got. (
                        l',
                        out,
                        steal_classes-hit left i class index n tree policy s.local slots at try l'
                            out e,
                        inl got,
                      )
                    ]
              searched stolen
      ]

  pub ll_local_steal-step :
      (class : ℕ) (policy : PolicyFn)
      → (l : Locals) × (res : LocalResult) × (ll_local_steal s.local class index tree n policy
          ≡ some (l, res))
        × (Stolen l res ⊎ ((res.success ≡ false) × (l ≡ s.local)))
  unfolding ll_local_steal
  ll_local_steal-step class policy = steal_classes_lem 8 0 class policy
