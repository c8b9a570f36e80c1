-- ===== src/Llfree/Upper/InitLocal.antt =====
-- `ll_local_init` of src/local.c: the slots are empty.
use llfree_c.Base.{
  total-zero, ℕ, ◌<◌, ◌≡◌, refl, ap, ◌∙◌, arith, false, Option, some, none, List, [], ◌∷◌,
  get_elem?, get_elem?_of_lt, get_elem?-replicate, set, length, length-set, replicate,
}
use llfree_c.Types.{ClassConf, Classing}
use llfree_c.Utils.{u8}
use llfree_c.Local.{Reserved, Locals, ll_reserved_new, init_classes, ll_local_init, count_of}
use llfree_c.Llfree.Upper.{slot_frames, class_frames, held, AllSlots, count_at, IsLocal}
use llfree_c.Llfree.Upper.Steps.{get_elem?-set}

abbrev empty_slot : Reserved
empty_slot = record { present = false; free = 0; start_row = 0 }

abbrev EmptySlots : Option (List Reserved) → Type 0
EmptySlots none = Unit
EmptySlots (some slots) = (x : ℕ) (r : Reserved) → get_elem? slots x ≡ some r → r ≡ empty_slot

-- Every class is below 8.
abbrev pub AllClasses : List ClassConf → Type 0
AllClasses [] = Unit
AllClasses (c ∷ rest) = (c.class < 8) × AllClasses rest

abbrev Empty : List (Option (List Reserved)) → Type 0
Empty classes =
    (c : ℕ) (slots : Option (List Reserved)) → get_elem? classes c ≡ some slots → EmptySlots slots

init_classes_lem :
    (confs : List ClassConf) (classes : List (Option (List Reserved)))
    → AllClasses confs
    → length classes ≡ 8
    → Empty classes
    → (out : List (Option (List Reserved))) × (init_classes confs classes ≡ some out)
      × (length out ≡ 8)
      × Empty out
unfolding init_classes ll_reserved_new
init_classes_lem [] classes all len empty = (classes, refl, len, empty)
init_classes_lem (c ∷ rest) classes (lt, all) len empty =
    let (old, at) = get_elem?_of_lt classes c.class (omega (arith, len, lt)) in
    let new : Option (List Reserved) = some (replicate c.count empty_slot) in
    let (out, ran, len', empty') =
      init_classes_lem rest (set classes c.class new) all (length-set classes c.class new ∙ len)
        (λ k slots.
          get_elem?-set EmptySlots classes c.class k old new slots at
            (λ x r e. get_elem?-replicate c.count x empty_slot r e) (empty k slots)) in
    (out, rw at ran, len', empty')

class_frames-Empty :
    (i : ℕ) (slots : Option (List Reserved)) → EmptySlots slots → class_frames i slots ≡ 0
class_frames-Empty i none e = refl
class_frames-Empty i (some slots) e =
    total-zero (slot_frames i) slots (λ x r at. ap (slot_frames i) (e x r at))

AllSlots-Empty :
    (frames : ℕ) (slots : Option (List Reserved)) → EmptySlots slots → AllSlots frames slots
AllSlots-Empty frames none e = record {}
AllSlots-Empty frames (some slots) e = λ x r at.
    let same = e x r at in
    let free : r.free ≡ 0 = ap (λ (q : Reserved). q.free) same in
    let absent : r.present ≡ false = ap (λ (q : Reserved). q.present) same in
    record { bounded = omega (arith, free); inside = λ present. ground (arith, absent, present) }

-- `ll_local_init` on classes below 8 succeeds. No slot has frames.
pub ll_local_init_lem :
    (frames : ℕ) (classing : Classing)
    → AllClasses classing.classes
    → (l : Locals) × (ll_local_init classing ≡ some l)
      × IsLocal frames (λ c. count_at (get_elem? l.classes c)) l
      × ((i : ℕ) → held l i ≡ 0)
unfolding ll_local_init
ll_local_init_lem frames classing all =
    let start : List (Option (List Reserved)) = replicate 8 none in
    let (out, ran, len, empty) =
      init_classes_lem classing.classes start all refl
        (λ c slots at. none-Empty c slots (get_elem?-replicate 8 c none slots at)) in
    (
      record { num_classes = u8 (length classing.classes); classes = out },
      rw ran refl,
      record {
        shaped = λ c. refl;
        eight = λ c lt.
            let (slots, at) = get_elem?_of_lt out c (omega (arith, len, lt)) in
            (count_of slots, ap count_at at);
        good = λ c slots at. AllSlots-Empty frames slots (empty c slots at);
      },
      λ i.
          total-zero (class_frames i) out
            (λ c slots at. class_frames-Empty i slots (empty c slots at)),
    )
  where
    none-Empty : (c : ℕ) (slots : Option (List Reserved)) → slots ≡ none → EmptySlots slots
    none-Empty c none e = record {}
    none-Empty c (some slots) e = ground (arith, e)
