-- ===== src/Llfree/Upper/Entries.antt =====
-- The tree array of src/llfree.c under the invariant: frames that go back to it, and the lower
-- allocator that serves frames in the hand.
use mathlib.Core.Path.{subst}
use llfree_c.Base.{
  ℕ, ◌+◌, ◌/◌, ◌%◌, ◌^◌, ◌≤◌, ◌<◌, ◌≡◌, ◌⊎◌, inl, inr, refl, ap, arith, true, false, ltb, ltb-true,
  Bool-cases, Option, some, none, List, ◌∷◌, get_elem?, get_elem?_of_lt,
}
use llfree_c.Types.{PolicyFn, Outcome, llfree_ok, llfree_err, memory}
use llfree_c.Tree.{Tree, tree_unreserve_add}
use llfree_c.Tree.Laws.{IsTree, tree_put_lem, tree_unreserve_add_lem}
use llfree_c.Trees.{put_entry, trees_load, trees_put, trees_unreserve}
use llfree_c.Lower.State.{Lower}
use llfree_c.Lower.Get.{lower_get}
use llfree_c.Lower.Counts.{tree_free-le}
use llfree_c.Lower.Ready.{Taken, IsWanted, Gets}
use llfree_c.Lower.Ready.Gets.{lower_get-Gets}
use llfree_c.Lower.Ready.GetsAt.{lower_get-Gets_at}
use llfree_c.Llfree.{Llfree, put_back, unreserve, lower_get_of}
use llfree_c.Llfree.Upper.{counter_of, counter, held, in_hand, IsUpper}
use llfree_c.Llfree.Upper.Steps.{entry_step, hand_step, lower_step}

module _ {frames : ℕ} {shape : ℕ → Option (Option ℕ)} {hand : List (ℕ × ℕ)} {s : Llfree} where
  -- The entry of a tree.
  pub entry_at :
      (k : ℕ)
      → IsUpper frames shape hand s
      → k < (frames + 4095) / 4096
      → (t : Tree) × (get_elem? s.trees.entries k ≡ some t)
        × (trees_load s.trees k ≡ some t)
        × IsTree t
  unfolding trees_load
  entry_at k u lt =
      let a = u.array in
      let (t, at) = get_elem?_of_lt s.trees.entries k (omega (arith, a.entries_len, a.len)) in
      let inside : ltb k s.trees.len ≡ true = ltb-true _ _ (omega (arith, a.len)) in
      (t, at, rw inside at, a.entries k t at)

  -- A tree has at most 4096 frames to account for.
  pub frames-le :
      (k : ℕ)
      → IsUpper frames shape hand s
      → k < (frames + 4095) / 4096
      → counter s.trees k + held s.local k + in_hand hand k ≤ 4096
  frames-le k u lt =
      let size = u.ready.size in
      omega (arith, u.covered k lt, tree_free-le s.lower k u.ready.sound (omega (arith, size)))

tree_unreserve_add-open :
    (t : Tree) (n class : ℕ) (policy : PolicyFn) (default_class : ℕ)
    → t.reserved ≡ false
    → tree_unreserve_add t n class policy default_class ≡ some none
unfolding tree_unreserve_add
tree_unreserve_add-open t n class policy default_class e = ground (arith, e)

module _ {frames : ℕ} {shape : ℕ → Option (Option ℕ)} {hand : List (ℕ × ℕ)} where
  -- Frames in the hand go back to the counter of their tree.
  pub put_back_lem :
      (s : Llfree) (k n : ℕ)
      → IsUpper frames shape ((k, n) ∷ hand) s
      → k < (frames + 4095) / 4096
      → (s' : Llfree) × (put_back s k n ≡ some s')
        × IsUpper frames shape hand s'
        × (s'.lower ≡ s.lower)
        × (s'.local ≡ s.local)
  unfolding put_back trees_put
  put_back_lem s k n u lt =
      let (t, at, load, valid) = entry_at k u lt in
      let bound = frames-le k u lt in
      let here : counter s.trees k ≡ t.free = ap counter_of at in
      let (t', done, valid', free, _, _) =
        tree_put_lem t n s.policy s.trees.default_class valid u.array.default_lt
          (ground (arith, bound, here)) in
      (
        record s { trees = put_entry s.trees k t' },
        rw (load, done) refl,
        entry_step k t t' u at valid' (λ i. ground (arith, free)),
        refl,
        refl,
      )

  -- Frames in the hand go back to a tree that is reserved, which then is not.
  pub unreserve-reserved :
      (s : Llfree) (k n class : ℕ) (t : Tree)
      → IsUpper frames shape ((k, n) ∷ hand) s
      → k < (frames + 4095) / 4096
      → class < 8
      → get_elem? s.trees.entries k ≡ some t
      → t.reserved ≡ true
      → (t' : Tree) × (unreserve s k n class ≡ some (record s { trees = put_entry s.trees k t' }))
        × IsUpper frames shape hand (record s { trees = put_entry s.trees k t' })
        × (t'.free ≡ t.free + n)
        × (t'.reserved ≡ false)
  unfolding unreserve trees_unreserve trees_load
  unreserve-reserved s k n class t u lt class_lt at reserved =
      let a = u.array in
      let inside : ltb k s.trees.len ≡ true = ltb-true _ _ (omega (arith, a.len)) in
      let bound = frames-le k u lt in
      let here : counter s.trees k ≡ t.free = ap counter_of at in
      let (t', done, valid', free, open_again) =
        tree_unreserve_add_lem t n class s.policy s.trees.default_class (a.entries k t at) class_lt
          a.default_lt reserved (ground (arith, bound, here)) in
      (
        t',
        rw (inside, at, done) refl,
        entry_step k t t' u at valid' (λ i. ground (arith, free)),
        free,
        open_again,
      )

  pub unreserve_lem :
      (s : Llfree) (k n class : ℕ)
      → IsUpper frames shape ((k, n) ∷ hand) s
      → k < (frames + 4095) / 4096
      → class < 8
      → (s' : Llfree) × (unreserve s k n class ≡ some s')
        × IsUpper frames shape hand s'
        × (s'.lower ≡ s.lower)
        × (s'.local ≡ s.local)
  unfolding unreserve trees_unreserve
  unreserve_lem s k n class u lt class_lt =
      let (t, at, load, valid) = entry_at k u lt in
      elim (Bool-cases t.reserved) [
        | inl reserved ↦
            let (t', done, u', _, _) = unreserve-reserved s k n class t u lt class_lt at reserved in
            (record s { trees = put_entry s.trees k t' }, done, u', refl, refl)
        | inr open_tree ↦
            let refused : tree_unreserve_add t n class s.policy s.trees.default_class ≡ some none =
              tree_unreserve_add-open t n class s.policy s.trees.default_class open_tree in
            (s, rw (load, refused) refl, hand_step u (λ i. ground arith), refl, refl)
      ]

abbrev pub Served :
    ℕ → (ℕ → Option (Option ℕ)) → List (ℕ × ℕ) → Llfree → ℕ → ℕ → ℕ → Option ℕ → Type 0
Served frames shape hand s k start order wanted =
    (l : Lower) × (res : Outcome) × (lower_get_of s start order wanted
      ≡ some (record s { lower = l }, res))
    × (((frame : ℕ) × (res ≡ llfree_ok frame 0)
          × Taken frames s.lower l k (2 ^ order) frame
          × IsWanted wanted frame
          × IsUpper frames shape hand (record s { lower = l }))
        ⊎ ((l ≡ s.lower) × (res ≡ llfree_err memory)))

served :
    {frames : ℕ} {shape : ℕ → Option (Option ℕ)} {hand : List (ℕ × ℕ)} (s : Llfree)
    (k start order : ℕ) (wanted : Option ℕ) (r : Lower × Outcome)
    → IsUpper frames shape ((k, 2 ^ order) ∷ hand) s
    → lower_get s.lower start order wanted ≡ some r
    → Gets frames wanted k (2 ^ order) s.lower r
    → Served frames shape hand s k start order wanted
unfolding lower_get_of
served s k start order wanted r u ran (inl (frame, e, taken, is_wanted)) =
    (r.0, r.1, rw ran refl, inl (frame, e, taken, is_wanted, lower_step u taken))
served s k start order wanted r u ran (inr same) = (
  r.0,
  r.1,
  rw ran refl,
  inr (ap (λ (p : Lower × Outcome). p.0) same, ap (λ (p : Lower × Outcome). p.1) same),
)

-- The run that a request names is aligned and lies in tree `k` of the memory.
abbrev pub FitsTree : ℕ → Option ℕ → ℕ → ℕ → Type 0
FitsTree frames none order k = Unit
FitsTree frames (some f) order k = (f / 4096 ≡ k) × (f + 2 ^ order ≤ frames) × (f % 2 ^ order ≡ 0)

-- The lower allocator takes the run from the frames in the hand, or changes nothing.
pub lower_get_of_lem :
    {frames : ℕ} {shape : ℕ → Option (Option ℕ)} {hand : List (ℕ × ℕ)} (s : Llfree)
    (k start order : ℕ) (wanted : Option ℕ)
    → frames < 2 ^ 41
    → order ≤ 6
    → IsUpper frames shape ((k, 2 ^ order) ∷ hand) s
    → start < frames
    → start / 4096 ≡ k
    → FitsTree frames wanted order k
    → Served frames shape hand s k start order wanted
lower_get_of_lem {frames} s k start order none few small u inside tree fits =
    let (r, ran, end) = lower_get-Gets frames s.lower start order few u.ready small inside in
    served s k start order none r u ran
      (subst (λ t. Gets frames none t (2 ^ order) s.lower r) tree end)
lower_get_of_lem {frames} s k start order (some f) few small u inside tree (here, room, aligned) =
    let (r, ran, end) =
      lower_get-Gets_at frames s.lower start f order few u.ready small room aligned in
    served s k start order (some f) r u ran
      (subst (λ t. Gets frames (some f) t (2 ^ order) s.lower r) here end)
