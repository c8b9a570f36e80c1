-- ===== src/Llfree/Upper/Places.antt =====
-- `search_and_reserve` of src/llfree.c under the invariant.
use llfree_c.Base.{
  ℕ, ◌+◌, ◌-◌, ◌*◌, ◌/◌, ◌%◌, ◌^◌, ◌≤◌, ◌<◌, ◌≡◌, refl, arith, true, ltb, ltb-true, Option, some,
  none, [], ◌>>=◌,
}
use llfree_c.Utils.{next_pow2, align_down}
use llfree_c.Utils.Powers.{next_pow2-least}
use llfree_c.Utils.Align.{align_down_lem}
use llfree_c.Trees.Search.{trees_search_best}
use llfree_c.Llfree.{Llfree, rate_reserve_near_tree, rate_reserve_global_tree, reserve_or_steal_cb}
use llfree_c.Llfree.Get.{or_else, max_size, search_and_reserve}
use llfree_c.Llfree.Upper.{IsUpper}
use llfree_c.Llfree.Upper.Requests.{u32_two_pow}
use llfree_c.Llfree.Upper.Ends.{Gives, Gives-eq, Gives-from, or_else-Gives}
use llfree_c.Llfree.Upper.Callbacks.{reserve_or_steal_cb-Gives}
use llfree_c.Llfree.Upper.Searches.{view, trees_search_best-Gives}

-- The start is aligned to a power of two.
aligned_start :
    (len start : ℕ)
    → len < 2 ^ 60
    → start < len
    → (align : ℕ) × (start' : ℕ) × (next_pow2 (2 * max_size (len / 16) 4) ≡ some align)
      × (align_down start align ≡ some start')
aligned_start len start small lt =
    let (k, power, k_lt, _, _) =
      next_pow2-least (2 * max_size (len / 16) 4) (ground (arith, small)) in
    (2 ^ k, start - start % 2 ^ k, power, align_down_lem start k k_lt (omega (arith, small, lt)))

search_and_reserve-searched :
    (s : Llfree) (class index order start align start' : ℕ)
    → order ≤ 6
    → ltb start s.trees.len ≡ true
    → next_pow2 (2 * max_size (s.trees.len / 16) 4) ≡ some align
    → align_down start align ≡ some start'
    → search_and_reserve s class index order start ≡ (
        trees_search_best view
          (rate_reserve_near_tree class (2 ^ order) s.policy)
          (reserve_or_steal_cb order class index)
          start'
          1
          (max_size (s.trees.len / 16) 4)
          s
        >>= λ first. or_else first (λ t.
          trees_search_best view
            (rate_reserve_global_tree class (2 ^ order) s.policy)
            (reserve_or_steal_cb order class index)
            start'
            0
            t.trees.len
            t))
unfolding search_and_reserve
search_and_reserve-searched s class index order start align start' small inside power down =
    let word = u32_two_pow order small in
    let below : ltb order 9 ≡ true = ltb-true _ _ (omega (arith, small)) in
    rw (inside, power, down, word, below) refl

module _ {frames : ℕ} {shape : ℕ → Option (Option ℕ)} (few : frames < 2 ^ 41) where
  pub search_and_reserve-Gives :
      (s : Llfree) (class index order start : ℕ)
      → order ≤ 6
      → class < 8
      → IsUpper frames shape [] s
      → start < (frames + 4095) / 4096
      → Gives frames shape (2 ^ order) none s.lower (search_and_reserve s class index order start)
  search_and_reserve-Gives s class index order start small class_lt u lt =
      let len = u.array.len in
      let inside : start < s.trees.len = omega arith in
      let (align, start', power, down) =
        aligned_start s.trees.len start (omega (arith, len, few)) inside in
      let trees : 0 < (frames + 4095) / 4096 = omega arith in
      let each =
        λ (t : Llfree) (idx : ℕ) (u' : IsUpper frames shape [] t)
            (idx_lt : idx < (frames + 4095) / 4096).
          reserve_or_steal_cb-Gives few order small t class index idx class_lt u' idx_lt in
      Gives-eq
        (search_and_reserve-searched s class index order start align start' small
          (ltb-true _ _ inside) power down)
        (or_else-Gives _ _
          (trees_search_best-Gives (rate_reserve_near_tree class (2 ^ order) s.policy)
            (reserve_or_steal_cb order class index) trees each start' 1
            (max_size (s.trees.len / 16) 4) s u)
          (λ t u' same. Gives-from same (
            trees_search_best-Gives (rate_reserve_global_tree class (2 ^ order) s.policy)
              (reserve_or_steal_cb order class index) trees each start' 0 t.trees.len t u')))
