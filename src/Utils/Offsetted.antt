-- ===== src/Utils/Offsetted.antt =====
-- `for_offsetted` of src/utils.h: the values that the loop takes.
use native.Mathlib.Nat.{mod-eq_of_lt, mod-lt, mod-le}
use llfree_c.Base.{
  ℕ, zero, suc, ◌+◌, ◌-◌, ◌%◌, ◌≤◌, ◌<◌, ◌≡◌, refl, ◌∙◌, ap, arith, some, get_elem?, length,
  lt_of_get_elem?, leb, if◌then◌else◌,
}
use llfree_c.Utils.Wrap.{wrap, mod-eq-wrap}
use llfree_c.Utils.{offsetted, offsetted_from}

length-offsetted_from :
    (base offset len left i current : ℕ)
    → length (offsetted_from base offset len left i current) ≡ left
unfolding offsetted_from
length-offsetted_from base offset len zero i current = refl
length-offsetted_from base offset len (suc left) i current =
    ap suc (length-offsetted_from base offset len left (i + 1) _)

pub length-offsetted : (start len : ℕ) → length (offsetted start len) ≡ len
unfolding offsetted
length-offsetted start len = length-offsetted_from _ _ len len 0 start

offsetted_from-at :
    (base offset len left i current k : ℕ)
    → current ≡ base + (i + offset) % len
    → k < left
    → get_elem? (offsetted_from base offset len left i current) k
      ≡ some (base + (i + k + offset) % len)
unfolding offsetted_from
offsetted_from-at base offset len zero i current k e h = absurd (omega arith)
offsetted_from-at base offset len (suc left) i current zero e h =
    let same : i + 0 + offset ≡ i + offset = omega arith in rw same (ap some e)
offsetted_from-at base offset len (suc left) i current (suc k) e h =
    let same : i + 1 + k + offset ≡ i + suc k + offset = omega arith in
    rw (← same) (offsetted_from-at base offset len left (i + 1) _ k refl (omega arith))

-- The value in round `k`.
pub offsetted-at :
    (start len k : ℕ)
    → k < len
    → get_elem? (offsetted start len) k ≡ some (start - start % len + (k + start % len) % len)
unfolding offsetted
offsetted-at start len k h =
    let offset_lt = mod-lt start {m = len} (omega arith) in
    let first : start ≡ start - start % len + (0 + start % len) % len =
      ground (arith, mod-eq_of_lt offset_lt, mod-le start len) in
    let same : 0 + k + start % len ≡ k + start % len = omega arith in
    rw (← same) (offsetted_from-at (start - start % len) (start % len) len len 0 start k first h)

-- The round in which the value `x` is taken.
pub value_round : ℕ → ℕ → ℕ → ℕ
value_round start len x = if leb start x then x - start else x + len - start

-- The value in round `k`, without a remainder.
offsetted-eq-some :
    (start len k x : ℕ)
    → k < len
    → get_elem? (offsetted start len) k ≡ some x
    → x ≡ start - start % len + wrap len (k + start % len)
offsetted-eq-some start len k x h e =
    let offset_lt = mod-lt start {m = len} (omega arith) in
    ground (arith, mod-eq-wrap len (k + start % len) (omega arith), e, offsetted-at start len k h)

-- For a positive length, `for_offsetted(start, len, i)` takes every value of the aligned group of
-- `len` values that `start` lies in, each of them in exactly one of its `len` rounds.
pub offsetted-once :
    (start len x : ℕ)
    → 0 < len
    → start - start % len ≤ x
    → x < start - start % len + len
    → (value_round start len x < len)
      × (get_elem? (offsetted start len) (value_round start len x) ≡ some x)
      × ((k : ℕ) → get_elem? (offsetted start len) k ≡ some x → k ≡ value_round start len x)
unfolding value_round
offsetted-once start len x pos lo hi =
    let offset_lt = mod-lt start {m = len} pos in
    let below = mod-le start len in
    let inside : value_round start len x < len = ground arith in
    let place : wrap len (value_round start len x + start % len) ≡ x - (start - start % len) =
      ground arith in
    let at : start - start % len + (value_round start len x + start % len) % len ≡ x =
      omega (arith, mod-eq-wrap len (value_round start len x + start % len) (omega arith), place) in
    (
      inside,
      offsetted-at start len _ inside ∙ ap some at,
      λ k e.
          let short : k < len =
            omega
              (arith, lt_of_get_elem? (offsetted start len) k x e, length-offsetted start len) in
          let value = offsetted-eq-some start len k x short e in ground arith,
    )
