-- ===== src/Lower/Init/Heal.antt =====
-- One round of `lower_recover` of src/lower.c.
use mathlib.Core.Path.{subst}
use llfree_c.Base.{
  ℕ, ◌-◌, ◌%◌, ◌^◌, ◌<◌, ◌≡◌, inl, inr, refl, sym, ◌∙◌, arith, set, get_elem?-set_self,
  lt_of_get_elem?, true, false, leb, if◌then◌else◌, Bool-cases, some, ◌==◌, List, get_elem?, length,
  length-set, get_elem?-set_ne, leb-true,
}
use llfree_c.Child.{Child, child_new}
use llfree_c.Bitfield.{Bitfield, field_init, field_count_ones}
use llfree_c.Bitfield.Field.{IsField, ones}
use llfree_c.Bitfield.Frames.{ones-le}
use llfree_c.Lower.State.{Lower, put_child}
use llfree_c.Lower.Init.{recover_child, zero_field}
use llfree_c.Lower.Init.Start.{entry_for-IsChild}
use llfree_c.Lower.Undo.{allocated}
use llfree_c.Lower.Single.{IsChild, HasChild, with_child, put_field-same}

-- Every field is well formed.
abbrev pub AreFields : List Bitfield → Type 0
AreFields fields = (i : ℕ) (f : Bitfield) → get_elem? fields i ≡ some f → IsField f

-- What a child is after the recovery.
abbrev pub healed_child : Child → Bitfield → Child
healed_child c f = if c.huge then allocated else record { free = 512 - ones f; huge = false }

abbrev pub healed_field : Child → Bitfield → Bitfield
healed_field c f = if c.huge then zero_field else f

pub field_count_ones_lem : (f : Bitfield) → IsField f → field_count_ones f ≡ some (ones f)
unfolding field_count_ones
field_count_ones_lem f field =
    let few : leb (ones f) 512 ≡ true = leb-true _ _ (ones-le f field) in rw few refl

pub child_new-free :
    (n : ℕ) → child_new ((512 - n) % 2 ^ 16) false ≡ some (record { free = 512 - n; huge = false })
unfolding child_new
child_new-free n = let word : (512 - n) % 2 ^ 16 ≡ 512 - n = omega arith in rw word (ground arith)

pub child_new-huge : child_new 0 true ≡ some allocated
unfolding child_new
child_new-huge = refl

pub recover_child_lem :
    (l : Lower) (i : ℕ) (c : Child) (f : Bitfield)
    → HasChild l i c f
    → IsField f
    → recover_child i l ≡ some (with_child l i (healed_child c f) (healed_field c f))
unfolding recover_child field_init
recover_child_lem l i c f has field = elim (Bool-cases c.huge) [
  | inl huge ↦ rw (has.child, has.bits, huge, child_new-huge) refl
  | inr small ↦
      let d : Child = record { free = 512 - ones f; huge = false } in
      rw
        (
          has.child,
          has.bits,
          small,
          field_count_ones_lem f field,
          child_new-free (ones f),
          put_field-same (put_child l i d) i f has.bits,
        )
        refl
]

pub healed-IsChild :
    (c : Child) (f : Bitfield) → IsField f → IsChild (healed_child c f) (healed_field c f)
healed-IsChild c f field = elim (Bool-cases c.huge) [
  | inl huge ↦ rw huge (entry_for-IsChild 0 (omega arith))
  | inr small ↦ rw small (record {
    field = field;
    counted = λ e. omega (arith, ones-le f field);
    whole = λ e. ground (arith, e);
  })
]

pub AreFields-set :
    (l : Lower) (i : ℕ) (c : Child) (f : Bitfield)
    → AreFields l.fields
    → IsField f
    → AreFields (with_child l i c f).fields
AreFields-set l i c f all field j g at = elim (Bool-cases (i == j)) [
  | inl same ↦
      let here : i ≡ j = ground arith in
      let short : i < length l.fields =
        omega (arith, lt_of_get_elem? (set l.fields i f) j g at, length-set l.fields i f) in
      subst IsField (ground (arith, get_elem?-set_self l.fields i f short, at, here)) field
  | inr other ↦ all j g (sym (get_elem?-set_ne l.fields i j f (ground arith)) ∙ at)
]

pub healed-IsField : (c : Child) (f : Bitfield) → IsField f → IsField (healed_field c f)
healed-IsField c f field = (healed-IsChild c f field).field
