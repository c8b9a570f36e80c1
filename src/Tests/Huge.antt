-- ===== src/Tests/Huge.antt =====
-- The allocation and the freeing of whole children in src/lower.c at a concrete allocator.
use llfree_c.Base.{ℕ, zero, suc, false, ◌≡◌, refl, arith, some, ◌∷◌, replicate}
use llfree_c.Types.{llfree_ok, llfree_err, ok}
use llfree_c.Utils.{align_up, align_down, trailing_zeros, ctz}
use llfree_c.Lower.State.{Lower, get_child, child_count}
use llfree_c.Lower.Get.{lower_get_at}
use llfree_c.Lower.Put.{lower_put}
use llfree_c.Lower.Undo.{all_free, allocated}
use llfree_c.Lower.Huge.{
  AllAre, SameOutside, lower_get_at-huge_lem, lower_put-huge_lem, lower_put-lower_get_at_huge,
}

-- Four children, the first two entirely free and the others allocated as huge pages.
abbrev four_children : Lower
four_children = record {
  frames = 2048;
  fields = replicate 4 (replicate 8 0);
  children =
      all_free ∷ all_free ∷ allocated ∷ allocated ∷ replicate 4 (record { free = 0; huge = false });
}

first_two : AllAre four_children 0 0 2 all_free
unfolding get_child child_count align_up align_down trailing_zeros ctz
first_two zero h = refl
first_two (suc zero) h = refl
first_two k h = absurd (omega arith)

last_two : AllAre four_children 2 0 2 allocated
unfolding get_child child_count align_up align_down trailing_zeros ctz
last_two zero h = refl
last_two (suc zero) h = refl
last_two k h = absurd (omega arith)

lower_get_at-huge_lem_example :
    (l' : Lower) × (lower_get_at four_children 0 10 ≡ some (l', llfree_ok 0 0))
    × AllAre l' 0 0 2 allocated
    × SameOutside four_children l' 0 0 2
    × (l'.fields ≡ four_children.fields)
    × (l'.frames ≡ 2048)
lower_get_at-huge_lem_example =
    lower_get_at-huge_lem four_children 0 10 (omega arith) (omega arith) refl (omega arith)
      (omega arith) first_two

lower_put-huge_lem_example :
    (l' : Lower) × (lower_put four_children 1024 10 ≡ some (l', llfree_err ok))
    × AllAre l' 2 0 2 all_free
    × SameOutside four_children l' 2 0 2
    × (l'.fields ≡ four_children.fields)
    × (l'.frames ≡ 2048)
lower_put-huge_lem_example =
    lower_put-huge_lem four_children 1024 10 (omega arith) (omega arith) refl (omega arith)
      (omega arith) last_two

lower_put-lower_get_at_huge_example :
    (l' l'' : Lower) × (lower_get_at four_children 0 10 ≡ some (l', llfree_ok 0 0))
    × (lower_put l' 0 10 ≡ some (l'', llfree_err ok))
    × ((i : ℕ) → get_child l'' i ≡ get_child four_children i)
    × (l''.fields ≡ four_children.fields)
lower_put-lower_get_at_huge_example =
    lower_put-lower_get_at_huge four_children 0 10 (omega arith) (omega arith) refl (omega arith)
      (omega arith) first_two
