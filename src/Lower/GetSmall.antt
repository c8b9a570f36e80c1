-- ===== src/Lower/GetSmall.antt =====
-- `lower_get` of src/lower.c without a given frame, for the runs that lie inside a row.
use llfree_c.Base.{
  ℕ, zero, suc, ◌+◌, ◌-◌, ◌^◌, ◌/◌, ◌%◌, ◌≡◌, ◌≤◌, ◌<◌, ◌⊎◌, inl, inr, refl, ◌∙◌, ap, arith, true,
  false, some, none, Option, List, [], ◌∷◌, get_elem?, ltb, leb, ltb-true, leb-true,
  lt_of_get_elem?,
}
use llfree_c.Types.{Outcome, llfree_ok, llfree_err, memory}
use llfree_c.Utils.{frame_from_child, offsetted}
use llfree_c.Utils.Offsetted.{offsetted-once, offsetted-at, length-offsetted}
use mathlib.Core.Path.{subst}
use llfree_c.Child.{Child}
use llfree_c.Bitfield.{Bitfield}
use llfree_c.Lower.State.{Lower, child_count, get_child}
use llfree_c.Lower.Get.{get_in_child, get_small, lower_get_any, lower_get}
use llfree_c.Lower.Single.{HasChild}
use llfree_c.Lower.Claim.{Given, Refuses, get_in_child_lem, get_in_child-refused, empty_dec}
use llfree_c.Lower.Invariant.{
  IsLower, Sound, entry_count, free_frames, IsLower-Given, free_frames-Given,
}

-- Entry `i` cannot give `2 ^ order` frames.
abbrev pub GivesNone : Lower → ℕ → ℕ → Type 0
GivesNone l i order =
    (c : Child) × (get_child l i ≡ some c)
    × ((c.free ≡ 0) ⊎ ((f : Bitfield) × HasChild l i c f × Refuses c f order))

abbrev Round : Lower → ℕ → ℕ → Lower × Option Outcome → Type 0
Round l i order r =
    ((pos : ℕ) × Given l r.0 i order pos × (r.1 ≡ some (llfree_ok (frame_from_child i + pos) 0)))
    ⊎ ((r ≡ (l, none)) × GivesNone l i order)

round_lem :
    (l : Lower) (i start_frame order : ℕ)
    → order ≤ 6
    → Sound l i
    → (r : Lower × Option Outcome) × (get_in_child start_frame order i l ≡ some r)
      × Round l i order r
round_lem l i start_frame order h s = elim (s.kept) [
  | inl (f, has, agree) ↦
      let (r, ran, end) = get_in_child_lem l i start_frame order s.child f h has agree in
      elim end [
        | inl given ↦ (r, ran, inl given)
        | inr (same, refuses) ↦ (r, ran, inr (same, (s.child, s.at, inr (f, has, refuses))))
      ]
  | inr (behind, none_left) ↦ (
    (l, none),
    get_in_child-refused l i start_frame order s.child s.at (empty_dec s.child order h none_left),
    inr (refl, (s.child, s.at, inl none_left)),
  )
]

-- The end of the search: a run of some entry of the list, or every entry refuses.
abbrev Found : Lower → ℕ → List ℕ → Lower × Outcome → Type 0
Found l order entries r =
    ((i : ℕ) × (pos : ℕ) × ((k : ℕ) × (get_elem? entries k ≡ some i))
      × Given l r.0 i order pos
      × (r.1 ≡ llfree_ok (frame_from_child i + pos) 0))
    ⊎ ((r ≡ (l, llfree_err memory))
        × ((k i : ℕ) → get_elem? entries k ≡ some i → GivesNone l i order))

Found-cons :
    (l : Lower) (order i : ℕ) (rest : List ℕ) (r : Lower × Outcome)
    → GivesNone l i order
    → Found l order rest r
    → Found l order (i ∷ rest) r
Found-cons l order i rest r here (inl (j, pos, (k, e), given, at)) =
    inl (j, pos, (suc k, e), given, at)
Found-cons l order i rest r here (inr (same, others)) = inr (same, each)
  where
    each : (k j : ℕ) → get_elem? (i ∷ rest) k ≡ some j → GivesNone l j order
    each zero j e = let at : i ≡ j = ground arith in subst (λ x. GivesNone l x order) at here
    each (suc k) j e = others k j e

get_small-found :
    (l l' : Lower) (start_frame order i : ℕ) (rest : List ℕ) (o : Outcome)
    → get_in_child start_frame order i l ≡ some (l', some o)
    → get_small start_frame order (i ∷ rest) l ≡ some (l', o)
unfolding get_small
get_small-found l l' start_frame order i rest o ran = rw ran refl

get_small-next :
    (l : Lower) (start_frame order i : ℕ) (rest : List ℕ)
    → get_in_child start_frame order i l ≡ some (l, none)
    → get_small start_frame order (i ∷ rest) l ≡ get_small start_frame order rest l
unfolding get_small
get_small-next l start_frame order i rest ran = rw ran refl

get_small_lem :
    (l : Lower) (start_frame order : ℕ) (entries : List ℕ)
    → order ≤ 6
    → IsLower l
    → ((k i : ℕ) → get_elem? entries k ≡ some i → i < entry_count l)
    → (r : Lower × Outcome) × (get_small start_frame order entries l ≡ some r)
      × Found l order entries r
unfolding get_small
get_small_lem l start_frame order [] h sound inside = (_, refl, inr (refl, λ k i e. ground arith))
get_small_lem l start_frame order (i ∷ rest) h sound inside =
    let (r, ran, end) = round_lem l i start_frame order h (sound i (inside 0 i refl)) in
    let (r', later, found) = get_small_lem l start_frame order rest h sound (λ k. inside (suc k)) in
    elim end [
      | inl (pos, given, e) ↦ (
        _,
        get_small-found l r.0 start_frame order i rest _
            (ran ∙ ap (λ (o : Option Outcome). some (r.0, o)) e),
        inl (i, pos, (0, refl), given, refl),
      )
      | inr (e, none_here) ↦ (
        r',
        get_small-next l start_frame order i rest (ran ∙ ap some e) ∙ later,
        Found-cons l order i rest r' none_here found,
      )
    ]

-- The entries of the tree of `idx`, in the order of the search.
tree_inside :
    (l : Lower) (start_frame k i : ℕ)
    → start_frame < l.frames
    → get_elem? (offsetted (start_frame / 512) 8) k ≡ some i
    → i < entry_count l
tree_inside l start_frame k i inside e =
    let idx = start_frame / 512 in
    let short : k < 8 =
      omega (arith, lt_of_get_elem? (offsetted idx 8) k i e, length-offsetted idx 8) in
    let at : i ≡ idx - idx % 8 + (k + idx % 8) % 8 =
      ground (arith, offsetted-at idx 8 k short, e) in
    omega arith

tree_same :
    (start_frame k i : ℕ)
    → get_elem? (offsetted (start_frame / 512) 8) k ≡ some i
    → i / 8 ≡ start_frame / 512 / 8
tree_same start_frame k i e =
    let idx = start_frame / 512 in
    let short : k < 8 =
      omega (arith, lt_of_get_elem? (offsetted idx 8) k i e, length-offsetted idx 8) in
    let at : i ≡ idx - idx % 8 + (k + idx % 8) % 8 =
      ground (arith, offsetted-at idx 8 k short, e) in
    omega arith

-- What a small allocation from the tree of `start_frame` has done: an entry of the tree has given a
-- run, and the allocator is sound with as many free frames fewer; or nothing has changed and each
-- entry of the tree refuses.
abbrev pub Allocated : Lower → ℕ → ℕ → Lower × Outcome → Type 0
Allocated l start_frame order r =
    ((i : ℕ) × (pos : ℕ) × Given l r.0 i order pos
      × (r.1 ≡ llfree_ok (frame_from_child i + pos) 0)
      × IsLower r.0
      × (free_frames r.0 + 2 ^ order ≡ free_frames l)
      × (i / 8 ≡ start_frame / 512 / 8))
    ⊎ ((r ≡ (l, llfree_err memory))
        × ((i : ℕ) → i / 8 ≡ start_frame / 512 / 8 → GivesNone l i order))

whole_tree :
    (l : Lower) (start_frame order : ℕ) (r : Lower × Outcome)
    → IsLower l
    → Found l order (offsetted (start_frame / 512) 8) r
    → Allocated l start_frame order r
whole_tree l start_frame order r sound (inl (i, pos, (k, at), given, e)) = inl (
  i,
  pos,
  given,
  e,
  IsLower-Given l r.0 i order pos sound given,
  free_frames-Given l r.0 i order pos given,
  tree_same start_frame k i at,
)
whole_tree l start_frame order r sound (inr (same, none_left)) = inr (
  same,
  λ i tree.
      let idx = start_frame / 512 in
      let (_, at, _) = offsetted-once idx 8 i (omega arith) (omega arith) (omega arith) in
      none_left _ i at,
)

-- On a sound allocator, for an order up to 6 and a start inside of it, `lower_get` without a given
-- frame does not fail an assertion. Either an entry of the tree of the start has given an aligned
-- free run, whose place is returned, the allocator is sound and its counters count `2 ^ order` free
-- frames fewer; or memory is out, the allocator is as it was, and each entry of that tree has no
-- free frame or is huge, has too few frames or has no aligned free run.
pub lower_get_lem :
    (l : Lower) (start_frame order : ℕ)
    → IsLower l
    → order ≤ 6
    → start_frame < l.frames
    → (r : Lower × Outcome) × (lower_get l start_frame order none ≡ some r)
      × Allocated l start_frame order r
unfolding lower_get lower_get_any child_count
lower_get_lem l start_frame order sound h inside =
    let (r, ran, found) =
      get_small_lem l start_frame order (offsetted (start_frame / 512) 8) h sound
        (λ k i. tree_inside l start_frame k i inside) in
    let small : leb order 12 ≡ true = leb-true _ _ (omega arith) in
    let not_huge : leb 9 order ≡ false = ground arith in
    let start : ltb start_frame l.frames ≡ true = ltb-true _ _ inside in
    let child : ltb (start_frame / 512) ((l.frames + 512 - 1) / 512) ≡ true =
      ltb-true _ _ (omega arith) in
    (r, rw (small, start, child, not_huge) ran, whole_tree l start_frame order r sound found)
