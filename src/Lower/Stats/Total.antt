-- ===== src/Lower/Stats/Total.antt =====
-- `lower_stats` of src/lower.c against sums over all entries.
use mathlib.Core.Path.{subst}
use llfree_c.Base.{
  ℕ, zero, suc, ◌+◌, ◌*◌, ◌≤◌, ◌≡◌, refl, sym, ap, ◌∙◌, arith, ◌==◌, Option, none, some, List, [],
  ◌∷◌, get_elem?, get_elem?_of_lt, length, total, total-nil, total-cons,
}
use llfree_c.Child.{Child}
use llfree_c.Lower.State.{Lower, child_count, children_count}
use llfree_c.Lower.Stats.{Stats, no_stats, flag, sum_children, sum_trees, lower_stats}
use llfree_c.Lower.Invariant.{entry_count, free_frames}

abbrev is_whole : Child → ℕ
is_whole c = flag (c.free == 512)

abbrev pub weight : (Child → ℕ) → Option Child → ℕ
weight w none = 0
weight w (some c) = w c

-- The sum over `n` entries from `i` on.
abbrev pub span : (Child → ℕ) → List Child → ℕ → ℕ → ℕ
span w xs i zero = 0
span w xs i (suc n) = weight w (get_elem? xs i) + span w xs (suc i) n

span-add :
    (w : Child → ℕ) (xs : List Child) (m n i : ℕ)
    → span w xs i (m + n) ≡ span w xs i m + span w xs (i + m) n
span-add w xs zero n i =
    let none_more : 0 + n ≡ n = omega arith in
    let here : i + 0 ≡ i = omega arith in
    omega (arith, ap (span w xs i) none_more, ap (λ j. span w xs j n) here)
span-add w xs (suc m) n i =
    let one_more : suc m + n ≡ suc (m + n) = omega arith in
    let there : suc i + m ≡ i + suc m = omega arith in
    omega
      (arith, ap (span w xs i) one_more, span-add w xs m n (suc i), ap (λ j. span w xs j n) there)

span-cons :
    (w : Child → ℕ) (x : Child) (xs : List Child) (n i : ℕ)
    → span w (x ∷ xs) (suc i) n ≡ span w xs i n
span-cons w x xs zero i = refl
span-cons w x xs (suc n) i = ap (λ t. weight w (get_elem? xs i) + t) (span-cons w x xs n (suc i))

span-total : (w : Child → ℕ) (xs : List Child) → span w xs 0 (length xs) ≡ total w xs
span-total w [] = sym (total-nil w)
span-total w (x ∷ xs) =
    ap (λ t. w x + t) (span-cons w x xs (length xs) 0 ∙ span-total w xs) ∙ sym (total-cons w x xs)

-- The statistics `r` are `s` and what `n` entries from `i` on add.
record Adds (xs : List Child) (i n : ℕ) (s r : Stats) : Type 0 where
  frames : r.free_frames ≡ s.free_frames + span (λ c. c.free) xs i n
  huge : r.free_huge ≡ s.free_huge + span is_whole xs i n

sum_children_lem :
    (xs : List Child) (left i free : ℕ) (s : Stats)
    → i + left ≤ length xs
    → (total_free : ℕ) × (r : Stats) × (sum_children xs left i free s ≡ some (total_free, r))
      × Adds xs i left s r
unfolding sum_children
sum_children_lem xs zero i free s h =
    (free, s, refl, record { frames = omega arith; huge = omega arith })
sum_children_lem xs (suc left) i free s h =
    let (c, at) = get_elem?_of_lt xs i (omega arith) in
    let next : i + 1 ≡ suc i = omega arith in
    let s' : Stats = record s {
      free_frames = s.free_frames + c.free;
      free_huge = s.free_huge + is_whole c;
    } in
    let (sum, r, done, adds) = sum_children_lem xs left (suc i) (free + c.free) s' (omega arith) in
    let frames = ap (weight (λ d. d.free)) at in
    let huge = ap (weight is_whole) at in
    (
      sum,
      r,
      rw (at, next) done,
      record { frames = omega (arith, adds.frames, frames); huge = omega (arith, adds.huge, huge) },
    )

Adds-join :
    (xs : List Child) (i m n k : ℕ) (s t r : Stats)
    → k ≡ m + n
    → Adds xs i m s t
    → Adds xs (i + m) n t r
    → Adds xs i k s r
Adds-join xs i m n k s t r e first second =
    let whole = ap (span (λ c. c.free) xs i) e in
    let whole_huge = ap (span is_whole xs i) e in
    record {
      frames = omega (arith, first.frames, second.frames, span-add (λ c. c.free) xs m n i, whole);
      huge = omega (arith, first.huge, second.huge, span-add is_whole xs m n i, whole_huge);
    }

sum_trees_lem :
    (xs : List Child) (left i : ℕ) (s : Stats)
    → i * 8 + left * 8 ≤ length xs
    → (r : Stats) × (sum_trees xs left i s ≡ some r) × Adds xs (i * 8) (left * 8) s r
unfolding sum_trees
sum_trees_lem xs zero i s h = (s, refl, record { frames = omega arith; huge = omega arith })
sum_trees_lem xs (suc left) i s h =
    let (sum, t, first, one) = sum_children_lem xs 8 (i * 8) 0 s (omega arith) in
    let t' : Stats = record t { free_trees = t.free_trees + flag (sum == 4096) } in
    let (r, done, rest) = sum_trees_lem xs left (i + 1) t' (omega arith) in
    let next : (i + 1) * 8 ≡ i * 8 + 8 = omega arith in
    (
      r,
      rw first done,
      Adds-join xs (i * 8) 8 (left * 8) (suc left * 8) s t' r (omega arith)
          (record { frames = one.frames; huge = one.huge })
          (subst (λ j. Adds xs j (left * 8) t' r) next rest),
    )

-- On an allocator with eight entries for each tree that has a frame, `lower_stats` does not go out
-- of bounds. Its free frames are the sum of the counters of all entries, and its free huge frames
-- are the entries with 512 free frames.
pub lower_stats_lem :
    (l : Lower)
    → length l.children ≡ entry_count l
    → (r : Stats) × (lower_stats l ≡ some r)
      × (r.free_frames ≡ free_frames l)
      × (r.free_huge ≡ total (λ c. flag (c.free == 512)) l.children)
unfolding lower_stats children_count child_count
lower_stats_lem l sized =
    let xs = l.children in
    let (r, done, adds) = sum_trees_lem xs (children_count l) 0 no_stats (omega (arith, sized)) in
    let all : children_count l * 8 ≡ length xs = omega (arith, sized) in
    let start : 0 * 8 ≡ 0 = omega arith in
    (
      r,
      done,
      omega (arith, adds.frames, ap (span (λ c. c.free) xs 0) all, span-total (λ c. c.free) xs),
      omega (arith, adds.huge, ap (span is_whole xs 0) all, span-total is_whole xs),
    )
