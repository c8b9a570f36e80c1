-- ===== src/Lower/Get.antt =====
-- `lower_get` and `lower_get_at` of src/lower.c.
use llfree_c.Base.{
  ℕ, ◌+◌, ◌-◌, ◌*◌, ◌/◌, ◌%◌, ◌^◌, true, false, Option, none, some, List, [], ◌∷◌, ltb, leb,
  if◌then◌else◌, assert, ◌>>=◌, ◌>>◌, get_elem?,
}
use llfree_c.Types.{
  child_size, child_order, tree_children, tree_order, Outcome, llfree_ok, llfree_err, llfree_is_ok,
  memory, argument,
}
use llfree_c.Utils.{align_down, offsetted, child_from_frame, frame_from_child}
use llfree_c.Child.{child_new, child_dec}
use llfree_c.Bitfield.{field_set_next, field_toggle}
use llfree_c.Lower.State.{Lower, child_count, put_field}
use llfree_c.Lower.Update.{try_update_huge_n, update_child, is_invalid, undo_dec}

unfoldable pub lower_get_at : Lower → ℕ → ℕ → Option (Lower × Outcome)
lower_get_at l frame order =
    let child_idx = child_from_frame frame in
    if is_invalid l frame order
    then some (l, llfree_err argument)
    else if leb child_order order
    then (do
      free ← child_new child_size false
      used ← child_new 0 true
      (l', done) ← try_update_huge_n l child_idx (2 ^ (order - child_order)) free used
      some (l', if done then llfree_ok frame 0 else llfree_err memory))
    else (do
      (l', taken) ← update_child child_dec l child_idx order
      if taken
          then (do
            field ← get_elem? l'.fields child_idx
            (field', ret) ← field_toggle field (frame % child_size) order false
            if llfree_is_ok ret
                then some (put_field l' child_idx field', llfree_ok frame 0)
                else (undo_dec (put_field l' child_idx field') child_idx order >>= λ u.
                    some (u, llfree_err memory)))
          else some (l', llfree_err memory))

-- The loop over the aligned groups of `h_num` children that are left.
unfoldable pub get_huge : ℕ → List ℕ → Lower → Option (Lower × Outcome)
get_huge h_num [] l = some (l, llfree_err memory)
get_huge h_num (slot ∷ rest) l = do
  free ← child_new child_size false
  used ← child_new 0 true
  (l', done) ← try_update_huge_n l (slot * h_num) h_num free used
  elim done [
    | true ↦ some (l', llfree_ok (frame_from_child (slot * h_num)) 0)
    | false ↦ get_huge h_num rest l'
  ]

-- One round of the loop over children: `none` inside where the search goes on.
unfoldable pub get_in_child : ℕ → ℕ → ℕ → Lower → Option (Lower × Option Outcome)
get_in_child start_frame order i l = do
  (l', taken) ← update_child child_dec l i order
  if taken
      then (do
        field ← get_elem? l'.fields i
        (field', pos) ← field_set_next field start_frame order
        if llfree_is_ok pos
            then some (put_field l' i field', some (llfree_ok (frame_from_child i + pos.frame) 0))
            else (undo_dec (put_field l' i field') i order >>= λ u. some (u, none)))
      else some (l', none)

unfoldable pub get_small : ℕ → ℕ → List ℕ → Lower → Option (Lower × Outcome)
get_small start_frame order [] l = some (l, llfree_err memory)
get_small start_frame order (i ∷ rest) l = do
  (l', found) ← get_in_child start_frame order i l
  elim found [ some r ↦ some (l', r) | none ↦ get_small start_frame order rest l' ]

-- `lower_get` where no frame is given.
unfoldable pub lower_get_any : Lower → ℕ → ℕ → Option (Lower × Outcome)
lower_get_any l start_frame order =
    let idx = child_from_frame start_frame in
    let h_num = 2 ^ (order - child_order) in
    assert (ltb start_frame l.frames)
    >> (assert (ltb idx (child_count l))
        >> (if leb child_order order
            then (align_down idx h_num >>= λ idx'.
                get_huge h_num (offsetted (idx' / h_num) (tree_children / h_num)) l)
            else get_small start_frame order (offsetted idx tree_children) l))

unfoldable pub lower_get : Lower → ℕ → ℕ → Option ℕ → Option (Lower × Outcome)
lower_get l start_frame order none =
    assert (leb order tree_order) >> lower_get_any l start_frame order
lower_get l start_frame order (some frame) =
    assert (leb order tree_order) >> lower_get_at l frame order
