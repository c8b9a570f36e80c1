-- ===== src/Llfree/Upper/InitTrees.antt =====
-- `trees_init` of src/trees.c with the callback of `llfree_init`: the counters of the trees are
-- those of their children.
use mathlib.Core.Path.{subst}
use llfree_c.Base.{
  ℕ, zero, suc, ◌+◌, ◌-◌, ◌*◌, ◌/◌, ◌%◌, ◌^◌, ◌≤◌, ◌<◌, ◌≡◌, refl, sym, ap, ◌∙◌, arith, true, false,
  ◌==◌, Bool-cases, inl, inr, ltb, leb, leb-true, ltb-true, Option, some, List, get_elem?,
  get_elem?_of_lt, get_elem?-set_self, get_elem?-set_ne, lt_of_get_elem?, length, length-set,
}
use llfree_c.Utils.{frame_from_tree, tree_from_frame}
use llfree_c.Child.{Child}
use llfree_c.Tree.{Tree, tree_new}
use llfree_c.Trees.{Trees, put_entry, init_entries, trees_init}
use llfree_c.Lower.State.{Lower}
use llfree_c.Lower.Undo.{get_child-eq-some}
use llfree_c.Lower.Stats.Total.{weight, span}
use llfree_c.Lower.Invariant.{IsLower, entry_count}
use llfree_c.Lower.Counts.{tree_free, tree_free-le}
use llfree_c.Llfree.Upper.{counter_of, counter, IsArray}
use llfree_c.Llfree.Manage.{sum_free, init_tree_cb}

sum_free_lem :
    (children : List Child) (left i sum : ℕ)
    → ((j : ℕ) → i ≤ j → j < i + left → (c : Child) × (get_elem? children j ≡ some c))
    → sum + span (λ c. c.free) children i left < 2 ^ 32
    → sum_free children left i sum ≡ some (sum + span (λ c. c.free) children i left)
unfolding sum_free
sum_free_lem children zero i sum all fits = ap some (omega arith)
sum_free_lem children (suc left) i sum all fits =
    let (c, at) = all i (omega arith) (omega arith) in
    let here : weight (λ c. c.free) (get_elem? children i) ≡ c.free =
      ap (weight (λ c. c.free)) at in
    let word : (sum + c.free) % 2 ^ 32 ≡ sum + c.free = omega (arith, fits, here) in
    let next : i + 1 ≡ suc i = omega arith in
    let rest =
      sum_free_lem children left (suc i) (sum + c.free)
        (λ j low high. all j (omega arith) (omega arith)) (omega (arith, fits, here)) in
    rw (at, word, next) (rest ∙ ap some (omega (arith, here)))

-- The callback gives the free frames of the tree.
pub init_tree_cb_lem :
    (l : Lower) (t : ℕ)
    → t < 2 ^ 50
    → IsLower l
    → t * 8 + 8 ≤ entry_count l
    → init_tree_cb l (frame_from_tree t) ≡ some (tree_free l t)
unfolding init_tree_cb tree_free
init_tree_cb_lem l t few sound inside =
    let bound = tree_free-le l t sound inside in
    let tree : tree_from_frame (frame_from_tree t) ≡ t = omega (arith, few) in
    let same : tree_free l t ≡ span (λ c. c.free) l.children (t * 8) 8 = refl in
    rw tree (
      sum_free_lem l.children 8 (t * 8) 0
        (λ j low high.
          let s = sound j (omega (arith, inside)) in (s.child, get_child-eq-some l j s.child s.at))
        (omega (arith, bound, same))
      ∙ ap some (omega arith))

-- The entries that were written, and the others.
record Set (s s' : Trees) (v : ℕ → ℕ) (i left : ℕ) : Type 0 where
  len : s'.len ≡ s.len
  class : s'.default_class ≡ s.default_class
  entries_len : length s'.entries ≡ length s.entries
  before : (j : ℕ) → j < i → get_elem? s'.entries j ≡ get_elem? s.entries j
  written :
      (j : ℕ)
      → i ≤ j
      → j < i + left
      → get_elem? s'.entries j
        ≡ some (record { reserved = false; class = s.default_class; free = v j })

init_entries_lem :
    (f : ℕ → Option ℕ) (v : ℕ → ℕ) (left i : ℕ) (s : Trees)
    → ((j : ℕ) → j < i + left → f (frame_from_tree j) ≡ some (v j))
    → ((j : ℕ) → j < i + left → v j ≤ 4096)
    → i + left ≤ length s.entries
    → s.default_class < 8
    → (s' : Trees) × (init_entries f left i s ≡ some s') × Set s s' v i left
unfolding init_entries tree_new
init_entries_lem f v zero i s reads bound room class_lt = (
  s,
  refl,
  record {
    len = refl;
    class = refl;
    entries_len = refl;
    before = λ j lt. refl;
    written = λ j low high. absurd (omega arith);
  },
)
init_entries_lem f v (suc left) i s reads bound room class_lt =
    let t : Tree = record { reserved = false; class = s.default_class; free = v i } in
    let (old, at) = get_elem?_of_lt s.entries i (omega (arith, room)) in
    let value = reads i (omega arith) in
    let fits : leb (v i) 4096 ≡ true = leb-true _ _ (bound i (omega arith)) in
    let valid : ltb s.default_class 8 ≡ true = ltb-true _ _ class_lt in
    let (s', ran, w) =
      init_entries_lem f v left (i + 1) (put_entry s i t) (λ j lt. reads j (omega arith))
        (λ j lt. bound j (omega arith)) (omega (arith, room, length-set s.entries i t)) class_lt in
    (
      s',
      rw (value, fits, valid, at) ran,
      record {
        len = w.len;
        class = w.class;
        entries_len = w.entries_len ∙ length-set s.entries i t;
        before = λ j lt. w.before j (omega arith) ∙ get_elem?-set_ne s.entries i j t (omega arith);
        written = λ j low high. elim (Bool-cases (i == j)) [
          | inl same ↦
              let here : i ≡ j = ground (arith, same) in
              subst
                (λ k.
                  get_elem? s'.entries k
                  ≡ some (record { reserved = false; class = s.default_class; free = v k }))
                here
                (w.before i (omega arith)
                  ∙ get_elem?-set_self s.entries i t (lt_of_get_elem? s.entries i old at))
          | inr other ↦ w.written j (ground (arith, other, low)) (omega arith)
        ];
      },
    )

-- `trees_init` on a buffer of the right length: the counter of each tree is what the callback says.
pub trees_init_lem :
    (frames : ℕ) (buffer : List Tree) (f : ℕ → Option ℕ) (v : ℕ → ℕ) (class : ℕ)
    → length buffer ≡ (frames + 4095) / 4096
    → ((j : ℕ) → j < (frames + 4095) / 4096 → f (frame_from_tree j) ≡ some (v j))
    → ((j : ℕ) → j < (frames + 4095) / 4096 → v j ≤ 4096)
    → class < 8
    → (s : Trees) × (trees_init frames buffer (some f) class ≡ some s)
      × IsArray frames s
      × ((j : ℕ) → j < (frames + 4095) / 4096 → counter s j ≡ v j)
unfolding trees_init
trees_init_lem frames buffer f v class size reads bound class_lt =
    let len = (frames + 4095) / 4096 in
    let rounds : (frames + 4096 - 1) / 4096 ≡ len = omega arith in
    let start : Trees = record { entries = buffer; len = len; default_class = class } in
    let (s, ran, w) =
      init_entries_lem f v len 0 start (λ j lt. reads j (omega arith))
        (λ j lt. bound j (omega arith)) (omega (arith, size)) class_lt in
    (
      s,
      cc (rounds, ran),
      record {
        len = w.len;
        entries_len = w.entries_len ∙ size ∙ sym w.len;
        entries = λ i t at.
            let i_lt : i < len =
              omega (arith, lt_of_get_elem? s.entries i t at, w.entries_len, size) in
            let here = sym at ∙ w.written i (omega arith) (omega (arith, i_lt)) in
            let small = bound i i_lt in ground (arith, here, small, class_lt);
        default_lt = omega (arith, w.class, class_lt);
      },
      λ j lt. ap counter_of (w.written j (omega arith) (omega (arith, lt))),
    )
