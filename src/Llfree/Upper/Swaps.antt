-- ===== src/Llfree/Upper/Swaps.antt =====
-- `ll_local_swap` and `ll_local_drain` of src/local.c under the invariant of src/llfree.c.
use llfree_c.Base.{
  ℕ, ◌+◌, ◌*◌, ◌/◌, ◌^◌, ◌≤◌, ◌<◌, ◌≡◌, inl, inr, refl, arith, true, false, leb, leb-true,
  if◌then◌else◌, Bool-cases, Option, some, List, ◌∷◌,
}
use llfree_c.Utils.{tree_from_row, row_from_tree}
use llfree_c.Local.{
  Reserved, Locals, make_result, row_bits, ll_reserved_new, get_slot, put_slot, ll_local_swap,
  ll_local_drain,
}
use llfree_c.Local.Laws.{HasSlot_of_get}
use llfree_c.Llfree.{Llfree}
use llfree_c.Llfree.Upper.{IsUpper}
use llfree_c.Llfree.Upper.Steps.{slot_step}

-- What a slot had comes to the hand where it was taken.
abbrev pub released : Reserved → List (ℕ × ℕ) → List (ℕ × ℕ)
released old hand = if old.present then (tree_from_row old.start_row, old.free) ∷ hand else hand

module _ {frames : ℕ} {shape : ℕ → Option (Option ℕ)} {hand : List (ℕ × ℕ)} where
  -- A slot that gets a reservation out of the hand, and gives its old one up.
  pub replace_step :
      (s : Llfree) (c x k n row : ℕ) (old : Reserved)
      → IsUpper frames shape ((k, n) ∷ hand) s
      → n ≤ 4096
      → row * 64 < frames
      → k ≡ tree_from_row row
      → get_slot s.local c x ≡ some old
      → IsUpper frames shape (released old hand) (record s {
        local = put_slot s.local c x (record { present = true; free = n; start_row = row });
      })
  replace_step s c x k n row old u bound inside tree at =
      let has = HasSlot_of_get s.local c x old at in
      slot_step u has (record { bounded = bound; inside = λ e. inside })
        (λ i. elim (Bool-cases old.present) [
          | inl taken ↦ rw taken (ground (arith, taken, tree))
          | inr empty ↦ rw empty (ground (arith, empty, tree))
        ])

  pub clear_step :
      (s : Llfree) (c x : ℕ) (old : Reserved)
      → IsUpper frames shape hand s
      → get_slot s.local c x ≡ some old
      → IsUpper frames shape (released old hand) (record s {
        local = put_slot s.local c x (record { present = false; free = 0; start_row = 0 });
      })
  clear_step s c x old u at =
      let has = HasSlot_of_get s.local c x old at in
      slot_step u has (record { bounded = omega arith; inside = λ e. ground (arith, e) })
        (λ i. elim (Bool-cases old.present) [
          | inl taken ↦ rw taken (ground (arith, taken))
          | inr empty ↦ rw empty (ground (arith, empty))
        ])

  pub ll_local_swap-step :
      (s : Llfree) (c x k n : ℕ) (old : Reserved)
      → frames < 2 ^ 41
      → IsUpper frames shape ((k, n) ∷ hand) s
      → k < (frames + 4095) / 4096
      → n ≤ 4096
      → get_slot s.local c x ≡ some old
      → (l : Locals) × (ll_local_swap s.local c x k n ≡ some (l, make_result true c old))
        × IsUpper frames shape (released old hand) (record s { local = l })
  unfolding ll_local_swap ll_reserved_new
  ll_local_swap-step s c x k n old few u lt bound at =
      let fits : leb n 4096 ≡ true = leb-true _ _ bound in
      let row : row_bits (row_from_tree k) ≡ k * 64 = omega (arith, few, lt) in
      (
        put_slot s.local c x (record { present = true; free = n; start_row = k * 64 }),
        rw (at, fits, row) refl,
        replace_step s c x k n (k * 64) old u bound (omega (arith, lt)) (omega (arith, few, lt)) at,
      )

  pub ll_local_drain-step :
      (s : Llfree) (c x : ℕ) (old : Reserved)
      → IsUpper frames shape hand s
      → get_slot s.local c x ≡ some old
      → (ll_local_drain s.local c x
          ≡ some (
            put_slot s.local c x (record { present = false; free = 0; start_row = 0 }),
            make_result old.present c old,
          ))
        × IsUpper frames shape (released old hand) (record s {
          local = put_slot s.local c x (record { present = false; free = 0; start_row = 0 });
        })
  unfolding ll_local_drain ll_reserved_new
  ll_local_drain-step s c x old u at = (rw at refl, clear_step s c x old u at)
