-- ===== src/Local/Laws.antt =====
-- The counters of the reserved trees in src/local.c.
use mathlib.Core.Path.{subst}
use llfree_c.Base.{
  ℕ, ◌+◌, ◌-◌, ◌%◌, ◌^◌, ◌≤◌, ◌≡◌, refl, sym, ap, ◌∙◌, arith, Bool, true, false, ◌==◌, leb, ltb,
  leb-true, Option, some, none, Option-cases, inl, inr, List, assert, ◌>>=◌, ◌>>◌, get_elem?, set,
  get_elem?-set_self, lt_of_get_elem?, set-set, set_of_get_elem?,
}
use llfree_c.Utils.{tree_from_row}
use llfree_c.Local.{
  Reserved, Locals, LocalResult, make_result, ll_reserved_dec, ll_reserved_inc, get_slot, put_slot,
  ll_local_get, ll_local_put,
}

-- Slot `index` of the class is `r`.
pub record HasSlot (l : Locals) (class index : ℕ) (r : Reserved) : Type 0 where
  pub slots : List Reserved
  pub class_ok : ltb class 8 ≡ true
  pub at_class : get_elem? l.classes class ≡ some (some slots)
  pub at_slot : get_elem? slots index ≡ some r

pub HasSlot_of_get :
    (l : Locals) (class index : ℕ) (r : Reserved)
    → get_slot l class index ≡ some r
    → HasSlot l class index r
unfolding get_slot
HasSlot_of_get l class index r h =
    let (class_ok, slots, at_class, at_slot) = chain (ltb class 8) (get_elem? l.classes class) h in
    record { slots = slots; class_ok = class_ok; at_class = at_class; at_slot = at_slot }
  where
    chain :
        (b : Bool) (m : Option (Option (List Reserved)))
        → (assert b >> (m >>= λ s. s >>= λ es. get_elem? es index)) ≡ some r
        → (b ≡ true) × (es : List Reserved) × (m ≡ some (some es)) × (get_elem? es index ≡ some r)
    chain false m e = ground (arith, e)
    chain true none e = ground (arith, e)
    chain true (some none) e = ground (arith, e)
    chain true (some (some es)) e = (refl, es, refl, e)

pub put_slot_lem :
    (l : Locals) (class index : ℕ) (r q : Reserved) (has : HasSlot l class index r)
    → put_slot l class index q
      ≡ record l { classes = set l.classes class (some (set has.slots index q)) }
unfolding put_slot
put_slot_lem l class index r q has = rw (put_slot, has.at_class) refl

pub HasSlot-put_slot :
    (l : Locals) (class index : ℕ) (r q : Reserved)
    → HasSlot l class index r
    → HasSlot (put_slot l class index q) class index q
HasSlot-put_slot l class index r q has =
    let class_lt = lt_of_get_elem? l.classes class (some has.slots) has.at_class in
    let slot_lt = lt_of_get_elem? has.slots index r has.at_slot in
    record {
      slots = set has.slots index q;
      class_ok = has.class_ok;
      at_class =
          ap (λ (m : Locals). get_elem? m.classes class) (put_slot_lem l class index r q has)
          ∙ get_elem?-set_self l.classes class (some (set has.slots index q)) class_lt;
      at_slot = get_elem?-set_self has.slots index q slot_lt;
    }

pub get_slot_lem :
    (l : Locals) (class index : ℕ) (r : Reserved)
    → HasSlot l class index r
    → get_slot l class index ≡ some r
unfolding get_slot
get_slot_lem l class index r has = rw (has.class_ok, has.at_class) has.at_slot

-- Writing back what the slot was.
put_slot-back :
    (l : Locals) (class index : ℕ) (r q : Reserved)
    → HasSlot l class index r
    → put_slot (put_slot l class index q) class index r ≡ l
unfolding HasSlot-put_slot
put_slot-back l class index r q has =
    let l1 = put_slot l class index q in
    let slots : set (set has.slots index q) index r ≡ has.slots =
      set-set has.slots index q r ∙ set_of_get_elem? has.slots index r has.at_slot in
    let one = put_slot_lem l class index r q has in
    put_slot_lem l1 class index q r (HasSlot-put_slot l class index r q has)
    ∙ ap
        (λ (m : Locals). record m {
          classes = set m.classes class (some (set (set has.slots index q) index r));
        })
        one
    ∙ rw
        (
          slots,
          set-set l.classes class (some (set has.slots index q)) (some has.slots),
          set_of_get_elem? l.classes class (some has.slots) has.at_class,
        )
        refl

pub ll_reserved_dec_lem :
    (old r : Reserved) (tree : Option ℕ) (frames : ℕ)
    → ll_reserved_dec old tree frames ≡ some r
    → (old.present ≡ true) × (frames ≤ old.free) × (record old { free = old.free - frames } ≡ r)
unfolding ll_reserved_dec
ll_reserved_dec_lem old r tree frames taken = ground (arith, taken)

-- `ll_reserved_inc` puts back what `ll_reserved_dec` took.
ll_reserved_inc-ll_reserved_dec :
    (old r : Reserved) (tree : Option ℕ) (frames : ℕ)
    → old.free ≤ 4096
    → ll_reserved_dec old tree frames ≡ some r
    → ll_reserved_inc r (tree_from_row old.start_row) frames ≡ some (some old)
unfolding ll_reserved_inc
ll_reserved_inc-ll_reserved_dec old r tree frames h taken =
    let (present, enough, after) = ll_reserved_dec_lem old r tree frames taken in
    let back : (old.free - frames + frames) % 2 ^ 32 ≡ old.free = omega arith in
    let field : old.free % 2 ^ 28 ≡ old.free = omega arith in
    let bound : leb old.free 4096 ≡ true = leb-true _ _ h in
    let tree_same : (tree_from_row old.start_row == tree_from_row old.start_row) ≡ true =
      ground arith in
    subst (λ q. ll_reserved_inc q (tree_from_row old.start_row) frames ≡ some (some old)) after
      (rw (present, tree_same, back, bound, field) refl)

-- Every reserved tree has at most 4096 free frames.
abbrev pub IsLocals : Locals → Type 0
IsLocals l =
    (class index : ℕ) (slots : List Reserved) (r : Reserved)
    → get_elem? l.classes class ≡ some (some slots)
    → get_elem? slots index ≡ some r
    → r.free ≤ 4096

-- A successful `ll_local_get`, taken apart.
ll_local_get_lem :
    (l l' : Locals) (class index frames : ℕ) (tree : Option ℕ) (res : LocalResult)
    → ll_local_get l class index tree frames ≡ some (l', res)
    → res.success ≡ true
    → (old r : Reserved) × (get_slot l class index ≡ some old)
      × (ll_reserved_dec old tree frames ≡ some r)
      × (put_slot l class index r ≡ l')
      × (old.start_row ≡ res.start_row)
unfolding ll_local_get
ll_local_get_lem l l' class index frames tree res done success =
    elim (Option-cases (get_slot l class index)) [
      | inl gone ↦ absurd (none_ne (rw gone at done))
      | inr (old, at) ↦ elim (Option-cases (ll_reserved_dec old tree frames)) [
        | inl refused ↦
            let ran : ll_local_get l class index tree frames
                ≡ some (l, make_result false class old) =
              rw (at, refused) refl in
            absurd (refused_ne (l, make_result false class old) refl (sym ran ∙ done))
        | inr (r, taken) ↦
            let ran : ll_local_get l class index tree frames
                ≡ some (put_slot l class index r, make_result true class old) =
              rw (at, taken) refl in
            let e = some_pair _ _ (sym ran ∙ done) in
            (old, r, at, taken, e.0, ap (λ (t : LocalResult). t.start_row) e.1)
      ]
    ]
  where
    none_ne : ◌≡◌ {A = Option (Locals × LocalResult)} none (some (l', res)) → ⊥
    none_ne e = cc

    some_pair :
        (m : Locals) (t : LocalResult)
        → ◌≡◌ {A = Option (Locals × LocalResult)} (some (m, t)) (some (l', res))
        → (m ≡ l') × (t ≡ res)
    some_pair m t e = ground (arith, e)

    refused_ne :
        (p : Locals × LocalResult)
        → p.1.success ≡ false
        → ◌≡◌ {A = Option (Locals × LocalResult)} (some p) (some (l', res))
        → ⊥
    refused_ne (m, t) no_success e =
        let same = ap (λ (u : LocalResult). u.success) (some_pair m t e).1 in
        ground (arith, same, success, no_success)

-- When no reserved tree has more than 4096 free frames and `ll_local_get` succeeds, then
-- `ll_local_put` of these frames, to the tree of the reported row, succeeds and gives the
-- reservations of before.
pub ll_local_put-ll_local_get :
    (l l' : Locals) (class index frames : ℕ) (tree : Option ℕ) (res : LocalResult)
    → IsLocals l
    → ll_local_get l class index tree frames ≡ some (l', res)
    → res.success ≡ true
    → ll_local_put l' class index (tree_from_row res.start_row) frames ≡ some (l, true)
unfolding ll_local_put
ll_local_put-ll_local_get l l' class index frames tree res sound done success =
    let (old, r, at, taken, after, row) =
      ll_local_get_lem l l' class index frames tree res done success in
    let has = HasSlot_of_get l class index old at in
    let inc =
      ll_reserved_inc-ll_reserved_dec old r tree frames
        (sound class index has.slots old has.at_class has.at_slot) taken in
    let slot =
      get_slot_lem (put_slot l class index r) class index r
        (HasSlot-put_slot l class index old r has) in
    subst (λ m. ll_local_put m class index (tree_from_row res.start_row) frames ≡ some (l, true))
      after
      (subst
        (λ t.
          ll_local_put (put_slot l class index r) class index (tree_from_row t) frames
          ≡ some (l, true))
        row (rw (slot, inc, put_slot-back l class index old r has) refl))
