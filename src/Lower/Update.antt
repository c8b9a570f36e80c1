-- ===== src/Lower/Update.antt =====
-- The updates of src/lower.c that touch entries alone. Each atomic access is one step.
use llfree_c.Base.{
  ℕ, zero, suc, ◌+◌, ◌-◌, ◌%◌, ◌^◌, Bool, true, false, not, ◌||◌, Option, none, some, ltb, ◌==◌,
  if◌then◌else◌, assert, ◌>>=◌, ◌>>◌,
}
use llfree_c.Utils.{u64}
use llfree_c.Child.{Child, child_inc, child_eq}
use llfree_c.Lower.State.{Lower, get_child, put_child}

-- `atom_cmp_exchange` on the entry `i`.
unfoldable pub exchange_child : Lower → ℕ → Child → Child → Option (Lower × Bool)
exchange_child l i expected desired = do
  c ← get_child l i
  some (if child_eq c expected then (put_child l i desired, true) else (l, false))

-- The undo loop of `try_update_huge_n`: `left` rounds to go, from `k` on.
unfoldable pub undo_huge : ℕ → ℕ → ℕ → ℕ → Child → Child → Lower → Option Lower
undo_huge zero base j k expected desired l = some l
undo_huge (suc left) base j k expected desired l = do
  (l', done) ← exchange_child l (base + (j - k)) desired expected
  assert done
  undo_huge left base j (k + 1) expected desired l'

-- The loop of `try_update_huge_n`: `left` rounds to go, from `j` on.
unfoldable pub update_huge : ℕ → ℕ → ℕ → Child → Child → Lower → Option (Lower × Bool)
update_huge zero base j expected desired l = some (l, true)
update_huge (suc left) base j expected desired l = do
  (l', done) ← exchange_child l (base + j) expected desired
  elim done [
    | true ↦ update_huge left base (j + 1) expected desired l'
    | false ↦ undo_huge j base j 0 expected desired l' >>= λ u. some (u, false)
  ]

unfoldable pub try_update_huge_n : Lower → ℕ → ℕ → Child → Child → Option (Lower × Bool)
try_update_huge_n l base h_num expected desired = update_huge h_num base 0 expected desired l

-- `atom_update` of the entry `i` by `child_dec` or `child_inc`.
unfoldable pub update_child : (Child → ℕ → Option Child) → Lower → ℕ → ℕ → Option (Lower × Bool)
update_child step l i order = do
  c ← get_child l i
  some (elim (step c order) [ some c' ↦ (put_child l i c', true) | none ↦ (l, false) ])

-- The guard of `lower_get_at` and `lower_put`; the sum is one of `uint64_t`.
abbrev pub is_invalid : Lower → ℕ → ℕ → Bool
is_invalid l frame order = ltb l.frames (u64 (frame + 2 ^ order)) || not (frame % 2 ^ order == 0)

-- What follows a failed search or toggle: the counter is put back, and that must succeed.
unfoldable pub undo_dec : Lower → ℕ → ℕ → Option Lower
undo_dec l i order = do (l', done) ← update_child child_inc l i order; assert done; some l'
