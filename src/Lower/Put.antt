-- ===== src/Lower/Put.antt =====
-- `split_huge` and `lower_put` of src/lower.c.
use llfree_c.Base.{
  ℕ, zero, suc, ◌-◌, ◌%◌, ◌^◌, true, false, not, Option, some, leb, ◌==◌, if◌then◌else◌, assert,
  ◌>>=◌, ◌>>◌, get_elem?,
}
use llfree_c.Types.{
  child_size, child_order, tree_order, Outcome, llfree_err, llfree_is_ok, ok, memory, argument,
  retries,
}
use llfree_c.Utils.{align_down, child_from_frame}
use llfree_c.Child.{Child, child_new}
use llfree_c.Bitfield.{field_toggle}
use llfree_c.Lower.State.{Lower, get_child, put_field}
use llfree_c.Lower.Update.{exchange_child, try_update_huge_n, is_invalid, undo_dec}

-- The wait of `split_huge` for another thread to split the page.
unfoldable pub wait_split : ℕ → ℕ → Lower → Option Outcome
wait_split zero i l = some (llfree_err memory)
wait_split (suc left) i l = do
  c ← get_child l i
  elim c.huge [ true ↦ wait_split left i l | false ↦ some (llfree_err ok) ]

-- The entry is the index `i` and the field that of the same index.
unfoldable pub split_huge : Child → ℕ → Lower → Option (Lower × Outcome)
split_huge old i l = do
  field ← get_elem? l.fields i
  (field', res) ← field_toggle field 0 child_order false
  elim (llfree_is_ok res) [
    | true ↦ do
      split ← child_new 0 false
      (l', success) ← exchange_child (put_field l i field') i old split
      assert success
      some (l', llfree_err ok)
    | false ↦ wait_split retries i (put_field l i field') >>= λ r. some (put_field l i field', r)
  ]

-- The end of `lower_put`: the bits are cleared, and then they are counted.
unfoldable pub put_bits : Lower → ℕ → ℕ → ℕ → Option (Lower × Outcome)
put_bits l child_idx field_index order = do
  field ← get_elem? l.fields child_idx
  (field', ret) ← field_toggle field field_index order true
  if llfree_is_ok ret
      then (undo_dec (put_field l child_idx field') child_idx order >>= λ u.
          some (u, llfree_err ok))
      else some (put_field l child_idx field', ret)

unfoldable pub put_huge : Lower → ℕ → ℕ → Option (Lower × Outcome)
put_huge l child_idx h_num = do
  base_idx ← align_down child_idx h_num
  if not (child_idx == base_idx) then some (l, llfree_err argument) else (do
    used ← child_new 0 true
    free ← child_new child_size false
    (l', done) ← try_update_huge_n l base_idx h_num used free
    some (l', if done then llfree_err ok else llfree_err argument))

unfoldable pub put_small : Lower → ℕ → ℕ → Option (Lower × Outcome)
put_small l frame order =
    let child_idx = child_from_frame frame in
    do
      old ← get_child l child_idx
      if old.huge
          then (do
            (l', res) ← split_huge old child_idx l
            if llfree_is_ok res
                then put_bits l' child_idx (frame % child_size) order
                else some (l', res))
          else put_bits l child_idx (frame % child_size) order

unfoldable pub lower_put : Lower → ℕ → ℕ → Option (Lower × Outcome)
lower_put l frame order =
    assert (leb order tree_order)
    >> (if is_invalid l frame order
        then some (l, llfree_err argument)
        else if leb child_order order
        then put_huge l (child_from_frame frame) (2 ^ (order - child_order))
        else put_small l frame order)
