-- ===== src/Trees/Rounds.antt =====
-- The order in which `trees_search` and `trees_search_best` of src/trees.c visit the trees.
use native.Mathlib.Nat.{add-mod_right}
use llfree_c.Base.{
  ℕ, ◌+◌, ◌-◌, ◌*◌, ◌/◌, ◌%◌, ◌^◌, ◌<◌, ◌≡◌, arith, ◌==◌, if◌then◌else◌, Bool-cases, inl, inr, leb,
  ltb,
}
use llfree_c.Utils.Wrap.{wrap, mod-eq-wrap}
use llfree_c.Utils.{sub64}
use llfree_c.Trees.Search.{search_index}

-- The place before it goes round: up on even rounds, down on odd ones.
abbrev place : ℕ → ℕ → ℕ → ℕ
place len start i = if i % 2 == 0 then start + i / 2 else start + len - (i + 1) / 2

search_index-eq-wrap :
    (len start i : ℕ)
    → start < len
    → i < len
    → len < 2 ^ 62
    → search_index len start i ≡ wrap len (place len start i)
unfolding search_index
search_index-eq-wrap len start i s h w = elim (Bool-cases (i % 2 == 0)) [
  | inl even ↦
      let word : (start + len + i / 2) % 2 ^ 64 ≡ start + i / 2 + len = omega arith in
      let round : (start + i / 2 + len) % len ≡ (start + i / 2) % len =
        add-mod_right (start + i / 2) len in
      rw (even, word, round) (mod-eq-wrap len (start + i / 2) (omega arith))
  | inr odd ↦
      let word : sub64 (start + len) ((i + 1) / 2) ≡ start + len - (i + 1) / 2 = omega arith in
      rw (odd, word) (mod-eq-wrap len (start + len - (i + 1) / 2) (omega arith))
]

-- The round in which the tree `t` is visited.
abbrev ahead : ℕ → ℕ → ℕ → ℕ
ahead len start t = if leb start t then t - start else t + len - start

pub tree_round : ℕ → ℕ → ℕ → ℕ
tree_round len start t =
    let up = ahead len start t in if ltb (2 * up) len then 2 * up else 2 * (len - up) - 1

-- For a tree array of fewer than `2 ^ 62` trees and a start in it, among the rounds of a search of
-- the whole array every tree is visited in exactly one.
pub search_index-once :
    (len start t : ℕ)
    → start < len
    → t < len
    → len < 2 ^ 62
    → (tree_round len start t < len)
      × (search_index len start (tree_round len start t) ≡ t)
      × ((i : ℕ) → i < len → search_index len start i ≡ t → i ≡ tree_round len start t)
unfolding tree_round
search_index-once len start t s h w = (
  ground arith,
  ground (arith, search_index-eq-wrap len start (tree_round len start t)),
  λ i below same. ground (arith, search_index-eq-wrap len start i),
)
