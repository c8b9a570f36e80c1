-- ===== src/Lower/Init/Recovery.antt =====
-- `lower_recover` of src/lower.c: the counters are computed again from the bits and the huge flags.
use mathlib.Core.Path.{ap₂}
use llfree_c.Base.{
  ltb, ℕ, zero, suc, ◌+◌, ◌/◌, ◌%◌, ◌≤◌, ◌<◌, ◌≡◌, ◌≢◌, inl, inr, refl, sym, ap, ◌∙◌, arith, false,
  if◌then◌else◌, Bool-cases, some, ◌==◌, get_elem?, get_elem?_of_lt, length, get_elem?-set_ne,
}
use llfree_c.Types.{llfree_err, ok}
use llfree_c.Child.{Child}
use llfree_c.Bitfield.{Bitfield}
use llfree_c.Bitfield.Frames.{frame_bit}
use llfree_c.Lower.State.{Lower, get_child, put_child}
use llfree_c.Lower.Init.{recover_from, lower_recover, lower_init, init_recover}
use llfree_c.Lower.Init.Loops.{IsSized, IsSized-with_child, get_child_of_lt, child_count_lem}
use llfree_c.Lower.Init.Start.{lower_init-dispatch}
use llfree_c.Lower.Undo.{get_child-put_ne, get_child-eq-some}
use llfree_c.Lower.Single.{HasChild, with_child, HasChild-with_child, get_child-put_field}
use llfree_c.Lower.Invariant.{IsLower}
use llfree_c.Lower.Spec.{is_free}
use llfree_c.Lower.Sets.{is_free-HasChild, is_free-behind}
use llfree_c.Lower.Init.Heal.{
  AreFields, healed_child, healed_field, recover_child_lem, healed-IsChild, AreFields-set,
  healed-IsField,
}

-- A write to child `i` leaves the others.
HasChild-other :
    (l : Lower) (i j : ℕ) (c d : Child) (f g : Bitfield)
    → i ≢ j
    → HasChild l j c f
    → HasChild (with_child l i d g) j c f
HasChild-other l i j c d f g ne has = record {
  child = get_child-put_field (put_child l i d) i j g ∙ get_child-put_ne l i j d ne ∙ has.child;
  bits = get_elem?-set_ne l.fields i j g ne ∙ has.bits;
}

child_at :
    (l : Lower) (i : ℕ)
    → IsSized l
    → i < (l.frames + 511) / 512
    → (c : Child) × (f : Bitfield) × HasChild l i c f
child_at l i sized h =
    let (c, at) = get_child_of_lt l i sized (omega arith) in
    let (f, bits) = get_elem?_of_lt l.fields i (omega (arith, sized.fields_len)) in
    (c, f, record { child = at; bits = bits })

-- What the loop writes, and what it leaves alone.
record Healed (l l' : Lower) (i left : ℕ) : Type 0 where
  frames : l'.frames ≡ l.frames
  sized : IsSized l'
  written :
      (j : ℕ) (c : Child) (f : Bitfield)
      → i ≤ j
      → j < i + left
      → HasChild l j c f
      → HasChild l' j (healed_child c f) (healed_field c f)
  below : (j : ℕ) (c : Child) (f : Bitfield) → j < i → HasChild l j c f → HasChild l' j c f
  behind : (j : ℕ) → i + left ≤ j → get_child l' j ≡ get_child l j

-- A place has one child.
HasChild-same :
    (l l' : Lower) (i j : ℕ) (c c' : Child) (f f' : Bitfield)
    → i ≡ j
    → HasChild l i c f
    → HasChild l j c' f'
    → HasChild l' i (healed_child c f) (healed_field c f)
    → HasChild l' j (healed_child c' f') (healed_field c' f')
HasChild-same l l' i j c c' f f' e has has' new =
    let old : c ≡ c' = ground (arith, sym has.child ∙ ap (get_child l) e ∙ has'.child) in
    let bits : f ≡ f' = ground (arith, sym has.bits ∙ ap (get_elem? l.fields) e ∙ has'.bits) in
    let d : healed_child c f ≡ healed_child c' f' = ap₂ healed_child old bits in
    let g : healed_field c f ≡ healed_field c' f' = ap₂ healed_field old bits in
    record {
      child = ap (get_child l') (sym e) ∙ new.child ∙ ap some d;
      bits = ap (get_elem? l'.fields) (sym e) ∙ new.bits ∙ ap some g;
    }

recover_from_lem :
    (left i : ℕ) (l : Lower)
    → IsSized l
    → AreFields l.fields
    → i + left ≤ (l.frames + 511) / 512
    → (l' : Lower) × (recover_from left i l ≡ some l') × Healed l l' i left
unfolding recover_from
recover_from_lem zero i l sized all h = (
  l,
  refl,
  record {
    frames = refl;
    sized = sized;
    written = λ j c f low high. absurd (omega arith);
    below = λ j c f lt has. has;
    behind = λ j lt. refl;
  },
)
recover_from_lem (suc left) i l sized all h =
    let (c, f, has) = child_at l i sized (omega arith) in
    let field = all i f has.bits in
    let d = healed_child c f in
    let g = healed_field c f in
    let l1 = with_child l i d g in
    let (l', done, rest) =
      recover_from_lem left (i + 1) l1 (IsSized-with_child l i d g sized)
        (AreFields-set l i d g all (healed-IsField c f field)) (omega arith) in
    (
      l',
      rw (recover_child_lem l i c f has field) done,
      record {
        frames = rest.frames;
        sized = rest.sized;
        written = λ j c' f' low high has'. elim (Bool-cases (j == i)) [
          | inl same ↦
              let here : i ≡ j = ground arith in
              let new = rest.below i d g (omega arith) (HasChild-with_child l i c d f g has) in
              HasChild-same l l' i j c c' f f' here has has' new
          | inr other ↦
              rest.written j c' f' (ground arith) (omega arith)
                (HasChild-other l i j c' d f' g (ground arith) has')
        ];
        below = λ j c' f' lt has'.
            rest.below j c' f' (omega arith) (HasChild-other l i j c' d f' g (omega arith) has');
        behind = λ j lt.
            rest.behind j (omega arith)
            ∙ get_child-put_field (put_child l i d) i j g
            ∙ get_child-put_ne l i j d (omega arith);
      },
    )

-- Recovery leaves the free frames of a child as they are.
healed-free :
    (c : Child) (f : Bitfield) (x : ℕ)
    → (if (healed_child c f).huge then false else frame_bit (healed_field c f) x == 0)
      ≡ (if c.huge then false else frame_bit f x == 0)
healed-free c f x = elim (Bool-cases c.huge) [ inl huge ↦ rw huge refl | inr small ↦ rw small refl ]

module _ (l l' : Lower) (sized : IsSized l) (all : AreFields l.fields)
    (rest : (j : ℕ) (c : Child)
      → length l.fields ≤ j
      → get_elem? l.children j ≡ some c
      → c.free ≡ 0)
    (healed : Healed l l' 0 ((l.frames + 511) / 512)) where
  IsLower-Healed : IsLower l'
  IsLower-Healed j inside = elim (Bool-cases (ltb j ((l.frames + 511) / 512))) [
    | inl child ↦
        let (c, f, has) = child_at l j sized (ground arith) in
        let has' = healed.written j c f (omega arith) (ground arith) has in
        record {
          child = healed_child c f;
          at = has'.child;
          kept = inl (healed_field c f, has', healed-IsChild c f (all j f has.bits));
        }
    | inr behind ↦
        let (c, at) = get_child_of_lt l j sized (omega (arith, healed.frames)) in
        record {
          child = c;
          at = healed.behind j (ground arith) ∙ at;
          kept = inr (
            ground (arith, healed.sized.fields_len, healed.frames),
            rest j c (ground (arith, sized.fields_len)) (get_child-eq-some l j c at),
          );
        }
  ]

  is_free-Healed : (x : ℕ) → is_free l' x ≡ is_free l x
  is_free-Healed x = elim (Bool-cases (ltb (x / 512) ((l.frames + 511) / 512))) [
    | inl child ↦
        let i = x / 512 in
        let (c, f, has) = child_at l i sized (ground arith) in
        let has' = healed.written i c f (omega arith) (ground arith) has in
        is_free-HasChild l' i x (healed_child c f) (healed_field c f) has' refl
        ∙ healed-free c f (x % 512)
        ∙ sym (is_free-HasChild l i x c f has refl)
    | inr behind ↦
        is_free-behind l' x (ground (arith, healed.sized.fields_len, healed.frames))
        ∙ sym (is_free-behind l x (ground (arith, sized.fields_len)))
  ]

lower_recover-run :
    (l l' : Lower) → recover_from ((l.frames + 511) / 512) 0 l ≡ some l' → lower_recover l ≡ some l'
unfolding lower_recover
lower_recover-run l l' done = rw (child_count_lem l) done

-- On arrays of the sizes that the number of frames asks for, with fewer than `2 ^ 60` frames,
-- well-formed bit fields and no free frame counted behind the last child, whatever the counters of
-- the children are, `lower_init` that recovers does not fail an assertion and reports no error. It
-- leaves a sound allocator in which the same frames are free as before.
pub lower_init-init_recover :
    (l : Lower)
    → IsSized l
    → AreFields l.fields
    → ((j : ℕ) (c : Child) → length l.fields ≤ j → get_elem? l.children j ≡ some c → c.free ≡ 0)
    → (l' : Lower) × (lower_init l.fields l.children l.frames init_recover
        ≡ some (l', llfree_err ok))
      × IsLower l'
      × ((x : ℕ) → is_free l' x ≡ is_free l x)
lower_init-init_recover l sized all rest =
    let (l', done, healed) =
      recover_from_lem ((l.frames + 511) / 512) 0 l sized all (omega arith) in
    (
      l',
      lower_init-dispatch l.fields l.children l.frames init_recover sized.small
          ∙ rw (lower_recover-run l l' done) refl,
      IsLower-Healed l l' sized all rest healed,
      is_free-Healed l l' sized all rest healed,
    )
