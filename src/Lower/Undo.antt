-- ===== src/Lower/Undo.antt =====
-- `try_update_huge_n` in src/lower.c: what its loops do to the entries of the group.
use llfree_c.Base.{
  ℕ, suc, ◌+◌, ◌-◌, ◌≤◌, ◌≡◌, ◌≢◌, refl, ◌∙◌, arith, true, false, Option, none, some, get_elem?,
  set, ltb, get_elem?-set_self, get_elem?-set_ne, lt_of_get_elem?, ◌>>=◌, ◌>>◌, assert, Bool-cases,
  inl, inr,
}
use llfree_c.Child.{Child, child_eq}
use llfree_c.Lower.State.{Lower, child_count, get_child, put_child}
use llfree_c.Lower.Update.{exchange_child, undo_huge, update_huge, try_update_huge_n}

-- An entirely free child, and one that is allocated as a huge page.
abbrev pub all_free : Child
all_free = record { free = 512; huge = false }

abbrev pub allocated : Child
allocated = record { free = 0; huge = true }

child_eq_self : (c : Child) → child_eq c c ≡ true
child_eq_self c = ground arith

child_eq_ne : (a b : Child) → a ≢ b → child_eq a b ≡ false
child_eq_ne a b h = ground arith

pub exchange_child-hit :
    (l : Lower) (i : ℕ) (e d : Child)
    → get_child l i ≡ some e
    → exchange_child l i e d ≡ some (put_child l i d, true)
unfolding exchange_child
exchange_child-hit l i e d h = rw h (rw (child_eq_self e) refl)

pub exchange_child-miss :
    (l : Lower) (i : ℕ) (c e d : Child)
    → get_child l i ≡ some c
    → c ≢ e
    → exchange_child l i e d ≡ some (l, false)
unfolding exchange_child
exchange_child-miss l i c e d h ne = rw h (rw (child_eq_ne c e ne) refl)

-- The access `m` behind the assertion on the index.
abbrev bounded : Option ℕ → ℕ → Option Child → Option Child
bounded bound i m = bound >>= λ b. assert (ltb i b) >> m

bounded-eq-some :
    (bound : Option ℕ) (i : ℕ) (m n : Option Child) (c : Child)
    → bounded bound i m ≡ some c
    → (m ≡ some c) × (bounded bound i n ≡ n)
bounded-eq-some none i m n c h = ground arith
bounded-eq-some (some b) i m n c h = elim (Bool-cases (ltb i b)) [
  | inl within ↦ (rw (← h) (rw within refl), rw within refl)
  | inr out ↦ absurd (none_ne (rw out at h))
]
  where
    none_ne : ◌≡◌ {A = Option Child} none (some c) → ⊥
    none_ne e = cc

-- An entry that can be read: its place in the array, and what a write leaves to be read.
pub get_child-eq-some :
    (l : Lower) (i : ℕ) (c : Child) → get_child l i ≡ some c → get_elem? l.children i ≡ some c
unfolding get_child
get_child-eq-some l i c h = (bounded-eq-some _ i (get_elem? l.children i) none c h).0

pub get_child-put_self :
    (l : Lower) (i : ℕ) (c d : Child)
    → get_child l i ≡ some c
    → get_child (put_child l i d) i ≡ some d
unfolding get_child child_count
get_child-put_self l i c d h =
    let (at, through) =
      bounded-eq-some _ i (get_elem? l.children i) (get_elem? (set l.children i d) i) c h in
    through ∙ get_elem?-set_self l.children i d (lt_of_get_elem? l.children i c at)

pub get_child-put_ne :
    (l : Lower) (i j : ℕ) (d : Child) → i ≢ j → get_child (put_child l i d) j ≡ get_child l j
unfolding get_child child_count
get_child-put_ne l i j d ne = simp (get_elem?-set_ne l.children i j d ne)

-- Where the first entry is as expected and the second is as desired, the undo turns the second into
-- the expected value and leaves the first changed.
update_huge-second :
    (left base : ℕ) (e d : Child) (l : Lower)
    → get_child l base ≡ some e
    → get_child l (base + 1) ≡ some d
    → d ≢ e
    → update_huge (suc (suc left)) base 0 e d l
      ≡ some (put_child (put_child l base d) (base + 1) e, false)
unfolding update_huge undo_huge
update_huge-second left base e d l first second ne =
    let at_first : base + 0 ≡ base = omega arith in
    let at_second : base + (0 + 1) ≡ base + 1 = omega arith in
    let at_undo : base + (0 + 1 - 0) ≡ base + 1 = omega arith in
    let other : base ≢ base + 1 = omega arith in
    let kept = get_child-put_ne l base (base + 1) d other ∙ second in
    rw
      (
        at_first,
        exchange_child-hit l base e d first,
        at_second,
        exchange_child-miss (put_child l base d) (base + 1) d e d kept ne,
        at_undo,
        exchange_child-hit (put_child l base d) (base + 1) d e kept,
      )
      refl

-- A group of two children or more, the first of them entirely free and the second allocated as a
-- huge page: the update fails, as it should, but its undo marks the second child as entirely free
-- and leaves the first allocated.
pub try_update_huge_n-frees_neighbour :
    (l : Lower) (base h_num : ℕ)
    → 2 ≤ h_num
    → get_child l base ≡ some all_free
    → get_child l (base + 1) ≡ some allocated
    → (l' : Lower) × (try_update_huge_n l base h_num all_free allocated ≡ some (l', false))
      × (get_child l' base ≡ some allocated)
      × (get_child l' (base + 1) ≡ some all_free)
unfolding try_update_huge_n
try_update_huge_n-frees_neighbour l base h_num many first second =
    let rounds : h_num ≡ suc (suc (h_num - 2)) = omega arith in
    let other : base ≢ base + 1 = omega arith in
    let back : base + 1 ≢ base = omega arith in
    let ne : allocated ≢ all_free = ground arith in
    let l1 = put_child l base allocated in
    (
      put_child l1 (base + 1) all_free,
      rw rounds (update_huge-second (h_num - 2) base all_free allocated l first second ne),
      get_child-put_ne l1 (base + 1) base all_free back
          ∙ get_child-put_self l base all_free allocated first,
      get_child-put_self l1 (base + 1) allocated all_free
          (get_child-put_ne l base (base + 1) allocated other ∙ second),
    )

-- A group of two children or more, the first of them entirely free, whose second child is neither
-- entirely free nor allocated as a whole: the undo of the update fails its assertion.
pub try_update_huge_n-undo_fails :
    (l : Lower) (base h_num : ℕ) (c : Child)
    → 2 ≤ h_num
    → get_child l base ≡ some all_free
    → get_child l (base + 1) ≡ some c
    → c ≢ all_free
    → c ≢ allocated
    → try_update_huge_n l base h_num all_free allocated ≡ none
unfolding try_update_huge_n update_huge undo_huge
try_update_huge_n-undo_fails l base h_num c many first second used part =
    let rounds : h_num ≡ suc (suc (h_num - 2)) = omega arith in
    let at_first : base + 0 ≡ base = omega arith in
    let at_second : base + (0 + 1) ≡ base + 1 = omega arith in
    let at_undo : base + (0 + 1 - 0) ≡ base + 1 = omega arith in
    let other : base ≢ base + 1 = omega arith in
    let l1 = put_child l base allocated in
    let kept = get_child-put_ne l base (base + 1) allocated other ∙ second in
    rw
      (
        rounds,
        at_first,
        exchange_child-hit l base all_free allocated first,
        at_second,
        exchange_child-miss l1 (base + 1) c all_free allocated kept used,
        at_undo,
        exchange_child-miss l1 (base + 1) c allocated all_free kept part,
      )
      refl
