-- ===== src/Child/Laws.antt =====
-- The counter of a child: `child_dec` and `child_inc` of src/child.c.
use llfree_c.Base.{
  ℕ, ◌+◌, ◌-◌, ◌%◌, ◌^◌, ◌≤◌, ◌≡◌, refl, arith, some, none, not, ◌&&◌, leb, if◌then◌else◌,
}
use llfree_c.Base.Bits.{two_pow_le}
use llfree_c.Child.{Child, child_dec, child_inc}

-- For an order up to 9, `child_dec` takes `2 ^ order` frames off exactly when the child is not huge
-- and has that many.
pub child_dec_lem :
    (c : Child) (order : ℕ)
    → order ≤ 9
    → child_dec c order ≡ (
        if not c.huge && leb (2 ^ order) c.free
        then some (record c { free = c.free - 2 ^ order })
        else none)
unfolding child_dec
child_dec_lem c order h =
    let small = two_pow_le order 9 h in
    let word : 2 ^ order % 2 ^ 16 ≡ 2 ^ order = omega arith in rw word refl

-- For an order up to 9 and a counter up to 512, `child_inc` adds `2 ^ order` frames exactly when
-- the child is not huge and the sum stays at 512 or less; no sum wraps round.
pub child_inc_lem :
    (c : Child) (order : ℕ)
    → order ≤ 9
    → c.free ≤ 512
    → child_inc c order ≡ (
        if not c.huge && leb (c.free + 2 ^ order) 512
        then some (record c { free = c.free + 2 ^ order })
        else none)
unfolding child_inc
child_inc_lem c order h few =
    let small = two_pow_le order 9 h in
    let word : 2 ^ order % 2 ^ 16 ≡ 2 ^ order = omega arith in
    let sum : (c.free + 2 ^ order) % 2 ^ 16 ≡ c.free + 2 ^ order = omega arith in
    let field : (c.free + 2 ^ order) % 2 ^ 15 ≡ c.free + 2 ^ order = omega arith in
    rw (word, sum, field) (ground arith)

-- What `child_dec` took off, for an order up to 9 and a counter up to 512, `child_inc` puts back.
pub child_inc-child_dec :
    (c d : Child) (order : ℕ)
    → order ≤ 9
    → c.free ≤ 512
    → child_dec c order ≡ some d
    → child_inc d order ≡ some c
child_inc-child_dec c d order h few taken =
    let down = child_dec_lem c order h in
    let small = two_pow_le order 9 h in ground (arith, taken, down, child_inc_lem d order h)
