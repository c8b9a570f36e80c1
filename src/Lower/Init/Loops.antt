-- ===== src/Lower/Init/Loops.antt =====
-- The two loops of `lower_clear` in src/lower.c.
use mathlib.Core.Path.{subst}
use llfree_c.Base.{
  ℕ, zero, suc, ◌+◌, ◌-◌, ◌*◌, ◌/◌, ◌%◌, ◌^◌, ◌≤◌, ◌<◌, ◌≡◌, ◌≢◌, refl, ap, ◌∙◌, arith, Bool, true,
  false, ltb, if◌then◌else◌, Bool-cases, inl, inr, some, get_elem?, get_elem?_of_lt, length,
  length-set, get_elem?-set_ne, ltb-true, ◌==◌,
}
use llfree_c.Utils.{align_up}
use llfree_c.Utils.Align.{align_up_lem}
use llfree_c.Child.{Child, child_new}
use llfree_c.Bitfield.{Bitfield}
use llfree_c.Lower.State.{Lower, child_count, get_child, put_child}
use llfree_c.Lower.Init.{
  zero_field, init_field, clear_child, clear_children, clear_leftover, lower_clear,
}
use llfree_c.Lower.Undo.{get_child-put_ne, get_child-put_self}
use llfree_c.Lower.Single.{HasChild, with_child, HasChild-with_child, get_child-put_field}
use llfree_c.Lower.Invariant.{entry_count}

-- The bound of the assertion in `get_child`.
pub align_up-entries :
    (l : Lower) → l.frames < 2 ^ 60 → align_up (child_count l) 8 ≡ some (entry_count l)
unfolding child_count
align_up-entries l h =
    let v = (l.frames + 512 - 1) / 512 in
    let (u, done, whole, low, high) = align_up_lem v 3 (omega arith) (omega arith) in
    let same : u ≡ entry_count l = omega arith in done ∙ ap some same

-- The arrays have the lengths that the number of frames asks for.
pub record IsSized (l : Lower) : Type 0 where
  pub fields_len : length l.fields ≡ (l.frames + 511) / 512
  pub children_len : length l.children ≡ entry_count l
  pub small : l.frames < 2 ^ 60

pub get_child_of_lt :
    (l : Lower) (i : ℕ) → IsSized l → i < entry_count l → (c : Child) × (get_child l i ≡ some c)
unfolding get_child
get_child_of_lt l i sized h =
    let (c, at) = get_elem?_of_lt l.children i (omega (arith, sized.children_len)) in
    let inside : ltb i (entry_count l) ≡ true = ltb-true _ _ h in
    (c, rw (align_up-entries l sized.small, inside) at)

pub IsSized-with_child :
    (l : Lower) (i : ℕ) (c : Child) (f : Bitfield) → IsSized l → IsSized (with_child l i c f)
IsSized-with_child l i c f sized = record {
  fields_len = length-set l.fields i f ∙ sized.fields_len;
  children_len = length-set l.children i c ∙ sized.children_len;
  small = sized.small;
}

-- The frames of child `i` that are to be free, and the entry and the bits for them.
abbrev pub share : ℕ → Bool → ℕ → ℕ
share frames free_all i =
    if free_all then (if ltb (frames - i * 512) 512 then frames - i * 512 else 512) else 0

abbrev pub entry_for : ℕ → Child
entry_for free = record { free = free; huge = free == 0 }

abbrev pub field_for : ℕ → Bitfield
field_for free = if free == 0 then zero_field else init_field free

pub share-le : (frames i : ℕ) (free_all : Bool) → share frames free_all i ≤ 512
share-le frames i true = ground arith
share-le frames i false = omega arith

child_new-entry :
    (free : ℕ) → free ≤ 512 → child_new (free % 2 ^ 16) (free == 0) ≡ some (entry_for free)
unfolding child_new
child_new-entry free h = let word : free % 2 ^ 16 ≡ free = omega arith in rw word (ground arith)

clear_child_lem :
    (free_all : Bool) (i : ℕ) (l : Lower)
    → IsSized l
    → i < (l.frames + 511) / 512
    → clear_child free_all i l
      ≡ some (
          with_child l i
            (entry_for (share l.frames free_all i))
            (field_for (share l.frames free_all i)))
unfolding clear_child
clear_child_lem free_all i l sized h =
    let free = share l.frames free_all i in
    let (c, at) = get_child_of_lt l i sized (omega arith) in
    let (f, bits) = get_elem?_of_lt l.fields i (omega (arith, sized.fields_len)) in
    rw (at, child_new-entry free (share-le l.frames i free_all), bits) refl

-- What the first loop leaves alone, and what it writes.
pub record Written (l l' : Lower) (free_all : Bool) (i left : ℕ) : Type 0 where
  pub frames : l'.frames ≡ l.frames
  pub sized : IsSized l'
  pub written :
      (j : ℕ)
      → i ≤ j
      → j < i + left
      → HasChild l' j
          (entry_for (share l.frames free_all j))
          (field_for (share l.frames free_all j))
  pub kept :
      (j : ℕ)
      → j < i
      → (get_child l' j ≡ get_child l j) × (get_elem? l'.fields j ≡ get_elem? l.fields j)

clear_children_lem :
    (left i : ℕ) (free_all : Bool) (l : Lower)
    → IsSized l
    → i + left ≤ (l.frames + 511) / 512
    → (l' : Lower) × (clear_children left free_all i l ≡ some l') × Written l l' free_all i left
unfolding clear_children
clear_children_lem zero i free_all l sized h = (
  l,
  refl,
  record {
    frames = refl;
    sized = sized;
    written = λ j low high. absurd (omega arith);
    kept = λ j lt. (refl, refl);
  },
)
clear_children_lem (suc left) i free_all l sized h =
    let c = entry_for (share l.frames free_all i) in
    let f = field_for (share l.frames free_all i) in
    let l1 = with_child l i c f in
    let (l', done, rest) =
      clear_children_lem left (i + 1) free_all l1 (IsSized-with_child l i c f sized)
        (omega arith) in
    (
      l',
      rw (clear_child_lem free_all i l sized (omega arith)) done,
      record {
        frames = rest.frames;
        sized = rest.sized;
        written = λ j low high. elim (Bool-cases (j == i)) [
          | inl same ↦
              let here : i ≡ j = ground arith in
              let (child, bits) = rest.kept i (omega arith) in
              let (c0, at0) = get_child_of_lt l i sized (omega arith) in
              let (f0, bits0) = get_elem?_of_lt l.fields i (omega (arith, sized.fields_len)) in
              let held = HasChild-with_child l i c0 c f0 f (record { child = at0; bits = bits0 }) in
              subst
                (λ k.
                  HasChild l' k (entry_for (share l.frames free_all k))
                    (field_for (share l.frames free_all k)))
                here (record { child = child ∙ held.child; bits = bits ∙ held.bits })
          | inr other ↦ rest.written j (ground arith) (omega arith)
        ];
        kept = λ j lt.
            let (child, bits) = rest.kept j (omega arith) in
            let ne : i ≢ j = omega arith in
            (
              child ∙ get_child-put_field (put_child l i c) i j f ∙ get_child-put_ne l i j c ne,
              bits ∙ get_elem?-set_ne l.fields i j f ne,
            );
      },
    )

-- The entries behind the last child become huge pages without a frame.
clear_leftover_lem :
    (left i : ℕ) (l : Lower)
    → IsSized l
    → i + left ≤ entry_count l
    → (l' : Lower) × (clear_leftover left i l ≡ some l')
      × (l'.frames ≡ l.frames)
      × (l'.fields ≡ l.fields)
      × IsSized l'
      × ((j : ℕ) → i ≤ j → j < i + left → get_child l' j ≡ some (entry_for 0))
      × ((j : ℕ) → j < i → get_child l' j ≡ get_child l j)
unfolding clear_leftover
clear_leftover_lem zero i l sized h =
    (l, refl, refl, refl, sized, λ j low high. absurd (omega arith), λ j lt. refl)
clear_leftover_lem (suc left) i l sized h =
    let l1 = put_child l i (entry_for 0) in
    let sized1 : IsSized l1 = record {
      fields_len = sized.fields_len;
      children_len = length-set l.children i (entry_for 0) ∙ sized.children_len;
      small = sized.small;
    } in
    let (c, at) = get_child_of_lt l i sized (omega arith) in
    let (l', done, frames, fields, sized', written, kept) =
      clear_leftover_lem left (i + 1) l1 sized1 (omega arith) in
    (
      l',
      rw (at, child_new-entry 0 (omega arith)) done,
      frames,
      fields,
      sized',
      λ j low high. elim (Bool-cases (j == i)) [
        | inl same ↦
            let here : i ≡ j = ground arith in
            subst (λ k. get_child l' k ≡ some (entry_for 0)) here
              (kept i (omega arith) ∙ get_child-put_self l i c (entry_for 0) at)
        | inr other ↦ written j (ground arith) (omega arith)
      ],
      λ j lt. kept j (omega arith) ∙ get_child-put_ne l i j (entry_for 0) (omega arith),
    )

-- What `lower_clear` leaves: every child has its share of free frames.
pub record IsCleared (l l' : Lower) (free_all : Bool) : Type 0 where
  pub frames : l'.frames ≡ l.frames
  pub sized : IsSized l'
  pub children :
      (j : ℕ)
      → j < (l.frames + 511) / 512
      → HasChild l' j
          (entry_for (share l.frames free_all j))
          (field_for (share l.frames free_all j))
  pub leftover :
      (j : ℕ) → (l.frames + 511) / 512 ≤ j → j < entry_count l → get_child l' j ≡ some (entry_for 0)

pub child_count_lem : (l : Lower) → child_count l ≡ (l.frames + 511) / 512
unfolding child_count
child_count_lem l = omega arith

lower_clear-run :
    (free_all : Bool) (l m l' : Lower)
    → IsSized l
    → clear_children ((l.frames + 511) / 512) free_all 0 l ≡ some m
    → clear_leftover (entry_count l - (l.frames + 511) / 512) ((l.frames + 511) / 512) m ≡ some l'
    → lower_clear free_all l ≡ some l'
unfolding lower_clear
lower_clear-run free_all l m l' sized first second =
    rw (align_up-entries l sized.small, child_count_lem l, first) second

pub lower_clear_lem :
    (free_all : Bool) (l : Lower)
    → IsSized l
    → (l' : Lower) × (lower_clear free_all l ≡ some l') × IsCleared l l' free_all
lower_clear_lem free_all l sized =
    let (m, first, w) =
      clear_children_lem ((l.frames + 511) / 512) 0 free_all l sized (omega arith) in
    let bound = entry_count l in
    let (l', second, frames, fields, sized', written, kept) =
      clear_leftover_lem (bound - (l.frames + 511) / 512) ((l.frames + 511) / 512) m w.sized
        (omega (arith, w.frames)) in
    (
      l',
      lower_clear-run free_all l m l' sized first second,
      record {
        frames = frames ∙ w.frames;
        sized = sized';
        children = λ j lt.
            let old = w.written j (omega arith) (omega arith) in
            record {
              child = kept j lt ∙ old.child;
              bits = ap (λ fs. get_elem? fs j) fields ∙ old.bits;
            };
        leftover = λ j low high. written j low (omega arith);
      },
    )
