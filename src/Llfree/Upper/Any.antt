-- ===== src/Llfree/Upper/Any.antt =====
-- `get_any` of src/llfree.c under the invariant: a request that names no frame.
use mathlib.Core.Path.{subst}
use native.Mathlib.Nat.{
  le-div_iff_mul-le as le-div_iff-mul-le, mul-lt-mul_of_pos_left, div-mul-le_self,
}
use llfree_c.Base.{
  ℕ, ◌+◌, ◌*◌, ◌/◌, ◌^◌, ◌≤◌, ◌<◌, ◌≡◌, inl, inr, refl, arith, true, false, ◌==◌, Bool-cases,
  Option, some, none, [],
}
use llfree_c.Base.Bits.{two_pow_pos}
use llfree_c.Types.{Request}
use llfree_c.Trees.Search.{trees_search_best}
use llfree_c.Llfree.{Llfree, rate_global_tree, steal_cb}
use llfree_c.Llfree.Get.{
  search_and_reserve, get_local, get_from_locals, uses_local, start_tree, moved, get_any,
}
use llfree_c.Llfree.Upper.{IsUpper}
use llfree_c.Llfree.Upper.Requests.{ll_local_class_locals_lem, IsRequest, HasLocal, u32_two_pow}
use llfree_c.Llfree.Upper.Ends.{Gives, Gives-eq, Gives-from, or_else-Gives}
use llfree_c.Llfree.Upper.Callbacks.{steal_cb-Gives}
use llfree_c.Llfree.Upper.OwnSlot.{get_local-GivesMoved}
use llfree_c.Llfree.Upper.Moved.{follow-GivesMoved}
use llfree_c.Llfree.Upper.Others.{others-Gives}
use llfree_c.Llfree.Upper.Places.{search_and_reserve-Gives}
use llfree_c.Local.{ll_local_class_locals}
use llfree_c.Llfree.Upper.Searches.{view, trees_search_best-Gives}

-- The start of a slot among the trees.
start_of-lt : (len slots i : ℕ) → i < slots → slots < len → len / slots * i < len
start_of-lt len slots i lt few =
    let positive : 0 < slots = omega arith in
    let one_at_least : 1 ≤ len / slots = (le-div_iff-mul-le positive).1 (omega arith) in
    omega
      (arith, mul-lt-mul_of_pos_left {k = len / slots} lt one_at_least, div-mul-le_self len slots)

-- Where the search starts after `get_local`.
moved-lt :
    (len start : ℕ) (to : Option ℕ)
    → start < len
    → ((t : ℕ) → to ≡ some t → t < len)
    → moved to start < len
moved-lt len start none lt inside = lt
moved-lt len start (some t) lt inside = inside t refl

module _ {frames : ℕ} {shape : ℕ → Option (Option ℕ)} (few : frames < 2 ^ 41) (request : Request)
    (small : request.order ≤ 6) (q : IsRequest frames shape request none) where
  get_from_locals-Gives :
      (s : Llfree)
      → IsUpper frames shape [] s
      → Gives frames shape (2 ^ request.order) none s.lower (get_from_locals request s)
  unfolding get_from_locals
  get_from_locals-Gives s u = others-Gives few request small none (record {}) s q.class_lt u

  -- The slots of the class.
  class_count :
      (s : Llfree)
      → IsUpper frames shape [] s
      → ll_local_class_locals s.local request.class ≡ some (some q.len)
  class_count s u =
      let (k, read, configured) =
        ll_local_class_locals_lem frames shape s.local request.class u.slots q.class_lt in
      let count = q.configured in cc (read, configured, count)

  trees_lt : 0 < (frames + 4095) / 4096
  trees_lt =
      let positive = two_pow_pos request.order in
      let room = q.size_le in omega (arith, positive, room)

  -- Without a slot of its own: the tree array, and then the slots of others.
  get_any-search :
      (s : Llfree)
      → IsUpper frames shape [] s
      → uses_local s request.local (some q.len) ≡ false
      → Gives frames shape (2 ^ request.order) none s.lower (get_any s request)
  unfolding get_any
  get_any-search s u unused =
      let word = u32_two_pow request.order small in
      let count = class_count s u in
      let start = start_tree s request.local (some q.len) in
      Gives-eq (rw (count, unused, word) refl) (
        or_else-Gives
          (trees_search_best view (rate_global_tree request.class (2 ^ request.order) s.policy)
            (steal_cb request.order request.class) start 0 s.trees.len s)
          (get_from_locals request)
          (trees_search_best-Gives _ _ trees_lt
            (λ t idx u' lt.
              steal_cb-Gives few request.order small t request.class idx q.class_lt u' lt)
            start 0 s.trees.len s u)
          (λ t u' same. Gives-from same (get_from_locals-Gives t u')))

  get_any-own :
      (s : Llfree) (index : ℕ)
      → IsUpper frames shape [] s
      → request.local ≡ some index
      → index < q.len
      → uses_local s (some index) (some q.len) ≡ true
      → Gives frames shape (2 ^ request.order) none s.lower (get_any s request)
  unfolding get_any
  get_any-own s index u own lt used =
      let word = u32_two_pow request.order small in
      let count = class_count s u in
      let start = start_tree s (some index) (some q.len) in
      let size = u.array.len in
      let fewer : q.len < s.trees.len = ground (arith, used) in
      let start_lt : start < (frames + 4095) / 4096 =
        let at = start_of-lt s.trees.len q.len index lt fewer in
        let some_slots : (q.len == 0) ≡ false = ground (arith, lt) in
        rw some_slots (omega (arith, at, size)) in
      follow-GivesMoved (get_local s request.class index request.order (2 ^ request.order) none)
        (get_any s request)
        (get_local-GivesMoved few request.order small none (record {}) request.class index q.len
          q.class_lt q.configured lt s u)
        (λ t f class to ran. cc (count, own, used, word, ran))
        (λ t to ran inside u' same. Gives-eq (cc (count, own, used, word, ran)) (
          or_else-Gives (search_and_reserve t request.class index request.order (moved to start))
            (get_from_locals request)
            (Gives-from same (
              search_and_reserve-Gives few t request.class index request.order (moved to start)
                small q.class_lt u' (moved-lt _ start to start_lt inside)))
            (λ t' u'' same'. Gives-from same' (get_from_locals-Gives t' u''))))

  pub get_any-Gives :
      (s : Llfree)
      → IsUpper frames shape [] s
      → Gives frames shape (2 ^ request.order) none s.lower (get_any s request)
  get_any-Gives s u = find request.local refl
    where
      find :
          (m : Option ℕ)
          → request.local ≡ m
          → Gives frames shape (2 ^ request.order) none s.lower (get_any s request)
      find none e = get_any-search s u (cc e)
      find (some index) e = elim (Bool-cases (uses_local s (some index) (some q.len))) [
        | inl used ↦ get_any-own s index u e (subst (λ m. HasLocal m q.len) e q.local_lt) used
        | inr unused ↦ get_any-search s u (cc (e, unused))
      ]
