-- ===== src/Llfree/Get.antt =====
-- `llfree_get` of src/llfree.c and the searches it is made of.
use llfree_c.Base.{
  ℕ, ◌-◌, ◌*◌, ◌/◌, ◌%◌, ◌^◌, Bool, true, false, not, ◌&&◌, Option, none, some, ltb, leb, ◌==◌,
  if◌then◌else◌, assert, ◌>>=◌, ◌>>◌,
}
use llfree_c.Types.{
  tree_order, child_order, Outcome, llfree_ok, llfree_err, llfree_is_ok, memory, argument,
  is_memory, Request,
}
use llfree_c.Utils.{
  u32, tree_from_frame, tree_from_row, frame_from_row, row_from_frame, align_down, next_pow2,
}
use llfree_c.Trees.{trees_steal}
use llfree_c.Trees.Search.{trees_search_best}
use llfree_c.Local.{ll_local_get, ll_local_set_start, ll_local_class_locals}
use llfree_c.Local.Steal.{ll_local_steal, ll_local_demote_any, or_zero}
use llfree_c.Llfree.{
  Llfree, rate_reserve_near_tree, rate_reserve_global_tree, rate_global_tree, put_back, unreserve,
  lower_get_of, reserve_or_steal_cb, steal_cb, sync_with_global, slots_of, tree_of,
}

-- Goes on with `next` where the result is LLFREE_ERR_MEMORY.
abbrev pub or_else :
    Llfree × Outcome → (Llfree → Option (Llfree × Outcome)) → Option (Llfree × Outcome)
or_else (s, res) next = if is_memory res.error then next s else some (s, res)

abbrev pub max_size : ℕ → ℕ → ℕ
max_size a b = if ltb b a then a else b

unfoldable pub search_and_reserve : Llfree → ℕ → ℕ → ℕ → ℕ → Option (Llfree × Outcome)
search_and_reserve self class index order start =
    let near = max_size (self.trees.len / 16) 4 in
    let frames = u32 (2 ^ order) in
    let cb = reserve_or_steal_cb order class index in
    let near_rate = rate_reserve_near_tree class frames self.policy in
    let any_rate = rate_reserve_global_tree class frames self.policy in
    do
      assert (ltb start self.trees.len)
      align ← next_pow2 (2 * near)
      start' ← align_down start align
      first ←
          if ltb order child_order
          then trees_search_best (λ (s : Llfree). s.trees) near_rate cb start' 1 near self
          else some (self, llfree_err memory)
      or_else first
          (λ s. trees_search_best (λ (s : Llfree). s.trees) any_rate cb start' 0 s.trees.len s)

-- `get_local` after the slot was decremented: `old` is the slot before. The last part is what is
-- stored through `start_out`, if anything is.
unfoldable pub get_reserved :
    Llfree → ℕ → ℕ → ℕ → ℕ → Option ℕ → ℕ → Option (Llfree × Outcome × Option ℕ)
get_reserved self class index order frames frame start_row = do
  (s, res) ← lower_get_of self (frame_from_row start_row) order frame
  if llfree_is_ok res
      then (let row = row_from_frame res.frame in
          if start_row == row
          then some (s, llfree_ok res.frame class, none)
          else (ll_local_set_start s.local class index row >>= λ done.
              some (record s { local = done.0 }, llfree_ok res.frame class, none)))
      else (put_back s (tree_from_row start_row) frames >>= λ s'.
          some (s', res, some (tree_from_row start_row)))

-- `get_local` with `sync` false.
unfoldable pub get_local_once :
    Llfree → ℕ → ℕ → ℕ → ℕ → Option ℕ → Option (Llfree × Outcome × Option ℕ)
get_local_once self class index order frames frame = do
  (l, old) ← ll_local_get self.local class index (tree_of frame) frames
  let s : Llfree = record self { local = l }
  if old.success
      then get_reserved s class index order frames frame old.start_row
      else some
          (s, llfree_err memory, if old.present then some (tree_from_row old.start_row) else none)

-- `get_local` with `sync` true.
unfoldable pub get_local : Llfree → ℕ → ℕ → ℕ → ℕ → Option ℕ → Option (Llfree × Outcome × Option ℕ)
get_local self class index order frames frame = do
  (l, old) ← ll_local_get self.local class index (tree_of frame) frames
  let s : Llfree = record self { local = l }
  if old.success
      then get_reserved s class index order frames frame old.start_row
      else if old.present
      then (do
        (s', synced) ← sync_with_global s class index frames old
        if synced
            then get_local_once s' class index order frames frame
            else some (s', llfree_err memory, some (tree_from_row old.start_row)))
      else some (s, llfree_err memory, none)

unfoldable pub steal_local : Llfree → Request → Option ℕ → Option (Llfree × Outcome)
steal_local self request frame =
    let frames = u32 (2 ^ request.order) in
    do
      (l, r) ←
          ll_local_steal self.local request.class (or_zero request.local) (tree_of frame) frames
            self.policy
      let s : Llfree = record self { local = l }
      if r.success
          then (do
            (s', res) ← lower_get_of s (frame_from_row r.start_row) request.order frame
            if llfree_is_ok res
                then some (s', llfree_ok res.frame r.class)
                else (put_back s' (tree_from_row r.start_row) frames >>= λ t.
                    some (t, if is_memory res.error then llfree_err memory else res)))
          else some (s, llfree_err memory)

unfoldable pub demote_local : Llfree → Request → Option ℕ → Option (Llfree × Outcome)
demote_local self request frame =
    let frames = u32 (2 ^ request.order) in
    do
      (l, found) ←
          ll_local_demote_any self.local request.class request.local (tree_of frame) frames
            self.policy
      let s : Llfree = record self { local = l }
      elim found [
        | none ↦ some (s, llfree_err memory)
        | some d ↦ do
          t ←
              if d.unreserve
              then unreserve s (tree_from_row d.unres_row) d.unres_free d.unres_class
              else some s
          (s', res) ← lower_get_of t (frame_from_row d.row) request.order frame
          if llfree_is_ok res
              then some (s', llfree_ok res.frame request.class)
              else (put_back s' (tree_from_row d.row) frames >>= λ u.
                  some (u, if is_memory res.error then llfree_err memory else res))
      ]

abbrev pub drop_start : Llfree × Outcome × Option ℕ → Llfree × Outcome
drop_start (s, res, start) = (s, res)

-- The steal from the tree array in `llfree_get_at`, and what follows where it is refused.
unfoldable pub get_at_global : Llfree → ℕ → Request → Option (Llfree × Outcome)
get_at_global self frame request =
    let frames = u32 (2 ^ request.order) in
    let tree_idx = tree_from_frame frame in
    do
      done ← trees_steal self.trees tree_idx frames request.class self.policy
      elim done [
        | some (t, new_class) ↦ do
          (s, res) ← lower_get_of (record self { trees = t }) frame request.order (some frame)
          if llfree_is_ok res
              then some (s, llfree_ok res.frame new_class)
              else (put_back s tree_idx frames >>= λ s'. some (s', res))
        | none ↦ do
          stolen ← steal_local self request (some frame)
          or_else stolen (λ s. demote_local s request (some frame))
      ]

unfoldable pub llfree_get_at : Llfree → ℕ → Request → Option (Llfree × Outcome)
llfree_get_at self frame request = assert (ltb frame self.lower.frames) >> elim request.local [
  | some index ↦ do
    r ← get_local self request.class index request.order (u32 (2 ^ request.order)) (some frame)
    or_else (drop_start r) (λ s. get_at_global s frame request)
  | none ↦ get_at_global self frame request
]

abbrev pub local_in_bounds : Option ℕ → ℕ → Bool
local_in_bounds none len = true
local_in_bounds (some index) len = ltb index len

abbrev pub frame_fits : ℕ → ℕ → Option ℕ → Bool
frame_fits frames req none = true
frame_fits frames req (some f) = leb f (frames - req) && f % req == 0

unfoldable pub validate_request : Llfree → Request → Option ℕ → Option Bool
validate_request self request frame =
    let req_frames = 2 ^ request.order in
    if ltb tree_order request.order
    then some false
    else (ll_local_class_locals self.local request.class >>= λ locals. some (elim locals [
      | none ↦ false
      | some len ↦
          local_in_bounds request.local len
          && (leb req_frames self.lower.frames && frame_fits self.lower.frames req_frames frame)
    ]))

-- Whether the local slots are used, and the tree where the search starts.
abbrev pub uses_local : Llfree → Option ℕ → Option ℕ → Bool
uses_local self index count = elim index [
  | none ↦ false
  | some i ↦ not (slots_of count == 0) && ltb (slots_of count) self.trees.len
]

abbrev pub start_tree : Llfree → Option ℕ → Option ℕ → ℕ
start_tree self index count =
    if slots_of count == 0
    then 0
    else elim index [ none ↦ 0 | some i ↦ self.trees.len / slots_of count * i ]

-- `start` after `get_local`.
abbrev pub moved : Option ℕ → ℕ → ℕ
moved none start = start
moved (some t) start = t

-- The end of `llfree_get`: the local slots of other requests.
unfoldable pub get_from_locals : Request → Llfree → Option (Llfree × Outcome)
get_from_locals request self = do
  stolen ← steal_local self request none
  or_else stolen (λ s. demote_local s request none)

unfoldable pub get_any : Llfree → Request → Option (Llfree × Outcome)
get_any self request = do
  count ← ll_local_class_locals self.local request.class
  let start = start_tree self request.local count
  let frames = u32 (2 ^ request.order)
  let rate = rate_global_tree request.class frames self.policy
  if uses_local self request.local count
      then (do
        (s, res, moved_to) ←
            get_local self request.class (or_zero request.local) request.order frames none
        or_else (s, res)
            (λ t.
              search_and_reserve t request.class (or_zero request.local) request.order
                (moved moved_to start)
              >>= λ found. or_else found (get_from_locals request)))
      else (trees_search_best (λ (s : Llfree). s.trees) rate (steal_cb request.order request.class)
            start 0 self.trees.len self
          >>= λ found. or_else found (get_from_locals request))

unfoldable pub llfree_get : Llfree → Option ℕ → Request → Option (Llfree × Outcome)
llfree_get self frame request = do
  valid ← validate_request self request frame
  if valid
      then elim frame [ some f ↦ llfree_get_at self f request | none ↦ get_any self request ]
      else some (self, llfree_err argument)
