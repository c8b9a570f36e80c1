-- ===== src/Trees/Stats.antt =====
-- `trees_stats` of src/trees.c against sums over the tree array.
use mathlib.Core.Path.{ap₂}
use llfree_c.Base.{
  take, length-take, get_elem?-take, ◌≤◌, ℕ, suc, ◌+◌, ◌-◌, ◌<◌, ◌≡◌, refl, sym, ap, ◌∙◌, arith,
  ◌==◌, if◌then◌else◌, Bool-cases, inl, inr, some, List, [], ◌∷◌, get_elem?, get_elem?_of_lt, set,
  length, length-set, get_elem?-set_self, get_elem?-set_ne, total, total-nil, total-cons, replicate,
  get_elem?-replicate, lt_of_get_elem?,
}
use llfree_c.Types.{max_classes}
use llfree_c.Tree.{Tree}
use llfree_c.Tree.Laws.{IsTree}
use llfree_c.Lower.Stats.{flag}
use llfree_c.Trees.{Trees, ClassStats, TreeStats, tree_alloc, add_trees, trees_stats}

-- The free and the allocated frames of the trees of class `k`.
abbrev pub free_of : ℕ → Tree → ℕ
free_of k t = if t.class == k then t.free else 0

abbrev pub used_of : ℕ → Tree → ℕ
used_of k t = if t.class == k then 4096 - t.free else 0

-- The statistics `r` are `s` and what the trees add.
record Adds (ts : List Tree) (s r : TreeStats) : Type 0 where
  pub frames : r.free_frames ≡ s.free_frames + total (λ t. t.free) ts
  pub trees : r.free_trees ≡ s.free_trees + total (λ t. flag (t.free == 4096)) ts
  pub len : length r.classes ≡ length s.classes
  pub by_class :
      (k : ℕ) (c : ClassStats)
      → get_elem? s.classes k ≡ some c
      → get_elem? r.classes k
        ≡ some (record {
          free_frames = c.free_frames + total (free_of k) ts;
          alloc_frames = c.alloc_frames + total (used_of k) ts;
        })

abbrev stats_of : ℕ → ℕ → ClassStats
stats_of free used = record { free_frames = free; alloc_frames = used }

-- What one tree adds to a class.
add_tree :
    (k : ℕ) (t : Tree) (ts : List Tree) (c d : ClassStats) (classes : List ClassStats)
    → get_elem? classes t.class ≡ some c
    → get_elem? classes k ≡ some d
    → (e : ClassStats) × (get_elem?
          (set classes t.class
            (stats_of (c.free_frames + t.free) (c.alloc_frames + (4096 - t.free))))
          k
        ≡ some e)
      × (e.free_frames + total (free_of k) ts ≡ d.free_frames + total (free_of k) (t ∷ ts))
      × (e.alloc_frames + total (used_of k) ts ≡ d.alloc_frames + total (used_of k) (t ∷ ts))
add_tree k t ts c d classes at e =
    let free = total-cons (free_of k) t ts in
    let used = total-cons (used_of k) t ts in
    let new = stats_of (c.free_frames + t.free) (c.alloc_frames + (4096 - t.free)) in
    elim (Bool-cases (t.class == k)) [
      | inl same ↦
          let here : t.class ≡ k = ground arith in
          let one : c ≡ d = ground (arith, sym at ∙ ap (get_elem? classes) here ∙ e) in
          let frames = ap (λ (x : ClassStats). x.free_frames) one in
          let allocs = ap (λ (x : ClassStats). x.alloc_frames) one in
          (
            new,
            ap (get_elem? (set classes t.class new)) (sym here)
                ∙ get_elem?-set_self classes t.class new (lt_of_get_elem? classes t.class c at),
            ground (arith, free, frames, same),
            ground (arith, used, allocs, same),
          )
      | inr other ↦ (
        d,
        get_elem?-set_ne classes t.class k new (ground arith) ∙ e,
        ground (arith, free, other),
        ground (arith, used, other),
      )
    ]

-- The number in C is the difference.
tree_alloc-eq : (free : ℕ) → free ≤ 4096 → tree_alloc free ≡ 4096 - free
tree_alloc-eq free h = omega arith

add_trees-round :
    (left i : ℕ) (entries : List Tree) (s : TreeStats) (t : Tree) (c : ClassStats) (r : TreeStats)
    → get_elem? entries i ≡ some t
    → get_elem? s.classes t.class ≡ some c
    → tree_alloc t.free ≡ 4096 - t.free
    → add_trees left (i + 1) entries (record {
      free_frames = s.free_frames + t.free;
      free_trees = s.free_trees + flag (t.free == 4096);
      classes =
          set s.classes t.class
            (stats_of (c.free_frames + t.free) (c.alloc_frames + (4096 - t.free)));
    })
      ≡ some r
    → add_trees (suc left) i entries s ≡ some r
unfolding add_trees
add_trees-round left i entries s t c r here at alloc done = rw (here, at, alloc) done

-- The rounds over the entries `ts` of the array.
add_trees_lem :
    (entries ts : List Tree) (i : ℕ) (s : TreeStats)
    → ((j : ℕ) → j < length ts → get_elem? entries (i + j) ≡ get_elem? ts j)
    → ((j : ℕ) (t : Tree) → get_elem? ts j ≡ some t → IsTree t)
    → length s.classes ≡ 8
    → (r : TreeStats) × (add_trees (length ts) i entries s ≡ some r) × Adds ts s r
unfolding add_trees
add_trees_lem entries [] i s same valid eight = (
  s,
  refl,
  record {
    frames = omega (arith, total-nil (λ (t : Tree). t.free));
    trees = omega (arith, total-nil (λ (t : Tree). flag (t.free == 4096)));
    len = refl;
    by_class = λ k c at.
        at
        ∙ ap₂ (λ a b. some (stats_of a b)) (omega (arith, total-nil (free_of k)))
            (omega (arith, total-nil (used_of k)));
  },
)
add_trees_lem entries (t ∷ ts) i s same valid eight =
    let good = valid 0 t refl in
    let here : get_elem? entries i ≡ some t =
      ap (get_elem? entries) (omega arith) ∙ same 0 (omega arith) in
    let (c, at) = get_elem?_of_lt s.classes t.class (omega (arith, good.classed, eight)) in
    let alloc = tree_alloc-eq t.free good.bounded in
    let c' : ClassStats = stats_of (c.free_frames + t.free) (c.alloc_frames + (4096 - t.free)) in
    let s' : TreeStats = record {
      free_frames = s.free_frames + t.free;
      free_trees = s.free_trees + flag (t.free == 4096);
      classes = set s.classes t.class c';
    } in
    let (r, done, adds) =
      add_trees_lem entries ts (i + 1) s'
        (λ j lt. ap (get_elem? entries) (omega arith) ∙ same (suc j) (omega arith))
        (λ j u e. valid (suc j) u e) (length-set s.classes t.class c' ∙ eight) in
    (
      r,
      add_trees-round (length ts) i entries s t c r here at alloc done,
      record {
        frames = omega (arith, adds.frames, total-cons (λ (t : Tree). t.free) t ts);
        trees = omega (arith, adds.trees, total-cons (λ (t : Tree). flag (t.free == 4096)) t ts);
        len = adds.len ∙ length-set s.classes t.class c';
        by_class = λ k d e.
            let (new, there, free, used) = add_tree k t ts c d s.classes at e in
            adds.by_class k new there ∙ ap₂ (λ a b. some (stats_of a b)) free used;
      },
    )

no_classes :
    (k : ℕ) → k < 8 → get_elem? (replicate max_classes (stats_of 0 0)) k ≡ some (stats_of 0 0)
no_classes k h =
    let (c, at) = get_elem?_of_lt (replicate max_classes (stats_of 0 0)) k h in
    at ∙ ap some (get_elem?-replicate 8 k (stats_of 0 0) c at)

-- On a buffer of at least as many entries as the tree array has, whose entries up to the end of the
-- array are valid, `trees_stats` does not go out of bounds. The free frames are the sum over the
-- entries of the array, the free trees are those with 4096 free frames, and each class has the free
-- and the allocated frames of the entries of the array of that class; what stands behind the end is
-- not counted.
pub trees_stats_lem :
    (s : Trees)
    → s.len ≤ length s.entries
    → ((i : ℕ) (t : Tree) → i < s.len → get_elem? s.entries i ≡ some t → IsTree t)
    → (r : TreeStats) × (trees_stats s ≡ some r)
      × (r.free_frames ≡ total (λ t. t.free) (take s.len s.entries))
      × (r.free_trees ≡ total (λ t. flag (t.free == 4096)) (take s.len s.entries))
      × ((k : ℕ)
          → k < 8
          → get_elem? r.classes k
            ≡ some (record {
              free_frames = total (free_of k) (take s.len s.entries);
              alloc_frames = total (used_of k) (take s.len s.entries);
            }))
unfolding trees_stats
trees_stats_lem s room known =
    let zero_stats : TreeStats = record {
      free_frames = 0;
      free_trees = 0;
      classes = replicate max_classes (stats_of 0 0);
    } in
    let ts = take s.len s.entries in
    let size = length-take s.len s.entries room in
    let (r, done, adds) =
      add_trees_lem s.entries ts 0 zero_stats
        (λ j lt.
          ap (get_elem? s.entries) (omega arith)
          ∙ sym (get_elem?-take s.len s.entries j (omega (arith, lt, size))))
        (λ j t at.
          let lt : j < s.len = omega (arith, lt_of_get_elem? ts j t at, size) in
          known j t lt (sym (get_elem?-take s.len s.entries j lt) ∙ at))
        refl in
    (
      r,
      ap (λ n. add_trees n 0 s.entries zero_stats) (sym size) ∙ done,
      omega (arith, adds.frames),
      omega (arith, adds.trees),
      λ k h.
          adds.by_class k (stats_of 0 0) (no_classes k h)
          ∙ ap₂ (λ a b. some (stats_of a b)) (omega arith) (omega arith),
    )
