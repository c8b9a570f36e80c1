-- ===== src/Lower/Threads/Moves.antt =====
-- The accesses of one thread in src/lower.c: each of them keeps the balance of the child, and what the
-- other threads rely on.
use mathlib.Core.Path.{subst}
use llfree_c.Base.{ℕ, ◌+◌, ◌*◌, ◌/◌, ◌≡◌, refl, sym, arith, set}
use llfree_c.Child.{Child}
use llfree_c.Child.Laws.{child_dec_lem}
use llfree_c.Bitfield.{Bitfield}
use llfree_c.Bitfield.Mark.{
  Marked-first_zeros, Marked-row_toggle, Freed-row_toggle, row_toggle-succeeds,
}
use llfree_c.Lower.Undo.{all_free, allocated}
use llfree_c.Lower.Threads.{
  Worker, idle, counted, holds, freeing, cleared, whole, IsRun, Move, take, refuse, mark, next_row,
  mark_at, give_up, give_up_fails, load, load_huge, clear, clear_fails, count, count_fails,
  take_whole, put_whole, put_whole_fails,
}
use llfree_c.Lower.Threads.Invariant.{owed, uses, IsSane, Balance, Effect}
use llfree_c.Lower.Threads.Balance.{Effect-quiet, Balance-dec, Balance-inc, Balance-debt}
use llfree_c.Lower.Threads.Effects.{
  Effect-clear, Effect-inc, Effect-inc_fails, Effect-take_whole, Effect-put_whole, child_eq-eq,
  put_whole_succeeds, load_small, Effect-mark,
}

-- Each access of a thread has this effect.
pub Move-Effect :
    (c : Child) (f : Bitfield) (w : Worker) (c' : Child) (f' : Bitfield) (w' : Worker) (others : ℕ)
    → Balance c f (others + owed w)
    → IsSane c f w
    → Move c f w c' f' w'
    → Effect c f w c' f' w' others
Move-Effect c f w c' f' w' others b sane (take {order} {d} h down) =
    let (b', huge) = Balance-dec c d f order (others + 0) h b down in
    Effect-quiet c d f idle (counted order) others huge (Balance-debt d f _ _ (omega arith) b') h
      (λ x gained. gained)
Move-Effect c f w c' f' w' others b sane (refuse order stop) =
    Effect-quiet c c f idle idle others (λ e. e) b sane (λ x gained. gained)
Move-Effect c f w c' f' w' others b sane (mark {order} row v h at hit) =
    let (m, inside, aligned) = Marked-first_zeros f row v order h b.field sane at hit in
    let run : IsRun order (row * 64 + h.pos) = record {
      order_le = sane;
      inside = inside;
      aligned = aligned;
    } in
    Effect-mark c f (set f row h.row) order (row * 64 + h.pos) others run b m
Move-Effect c f w c' f' w' others b sane (next_row {order} row v at full) =
    Effect-quiet c c f (counted order) (counted order) others (λ e. e) b sane (λ x gained. gained)
Move-Effect c f w c' f' w' others b sane (mark_at {order} {pos} v u run at done) =
    Effect-mark c f (set f (pos / 64) u) order pos others run b
      (Marked-row_toggle f order pos v b.field run.order_le run.inside run.aligned at u done)
Move-Effect c f w c' f' w' others b sane (give_up {order} {d} up) =
    Effect-inc c d f order others (counted order) sane b up
Move-Effect c f w c' f' w' others b sane (give_up_fails {order} stop) =
    absurd (Effect-inc_fails c f order others sane b stop)
Move-Effect c f w c' f' w' others b sane (load {order} {pos} e) =
    Effect-quiet c c f (holds order pos) (freeing order pos) others (λ h. h) b sane
      (λ x gained. gained)
Move-Effect c f w c' f' w' others b sane (load_huge {order} {pos} e) =
    absurd (load_small c f order pos (others + 0) sane b e)
Move-Effect c f w c' f' w' others b sane (clear {order} {pos} v u at done) =
    let run = sane.run in
    Effect-clear c f (set f (pos / 64) u) order pos others run.order_le run.inside b
      (Freed-row_toggle f order pos v b.field run.order_le run.inside run.aligned at u done)
Move-Effect c f w c' f' w' others b sane (clear_fails {order} {pos} v at done) =
    let run = sane.run in
    absurd (
      row_toggle-succeeds f order pos v b.field run.order_le run.inside run.aligned at sane.marked
        done)
Move-Effect c f w c' f' w' others b sane (count {order} {d} up) =
    Effect-inc c d f order others (cleared order) sane b up
Move-Effect c f w c' f' w' others b sane (count_fails {order} stop) =
    absurd (Effect-inc_fails c f order others sane b stop)
Move-Effect c f w c' f' w' others b sane (take_whole e) =
    subst (λ t. Effect t f idle allocated f whole others) (child_eq-eq c all_free e)
      (Effect-take_whole f others
        (subst (λ t. Balance t f (others + 0)) (sym (child_eq-eq c all_free e)) b))
Move-Effect c f w c' f' w' others b sane (put_whole e) =
    subst (λ t. Effect t f whole all_free f idle others) (child_eq-eq c allocated e)
      (Effect-put_whole f others
        (subst (λ t. Balance t f (others + 0)) (sym (child_eq-eq c allocated e)) b))
Move-Effect c f w c' f' w' others b sane (put_whole_fails e) =
    absurd (put_whole_succeeds c f (others + 0) b sane e)

-- The counter together with what the thread uses stays the same.
pub Move-uses :
    (c : Child) (f : Bitfield) (w : Worker) (c' : Child) (f' : Bitfield) (w' : Worker) (others : ℕ)
    → Balance c f (others + owed w)
    → IsSane c f w
    → Move c f w c' f' w'
    → c'.free + uses w' ≡ c.free + uses w
Move-uses c f w c' f' w' others b sane (take {order} {d} h down) =
    ground (arith, child_dec_lem c order (omega arith), down)
Move-uses c f w c' f' w' others b sane (refuse order stop) = refl
Move-uses c f w c' f' w' others b sane (mark row v h at hit) = refl
Move-uses c f w c' f' w' others b sane (next_row row v at full) = refl
Move-uses c f w c' f' w' others b sane (mark_at v u run at done) = refl
Move-uses c f w c' f' w' others b sane (give_up {order} {d} up) =
    ground (arith, (Balance-inc c f order others sane b).0, up)
Move-uses c f w c' f' w' others b sane (give_up_fails {order} stop) =
    absurd (Effect-inc_fails c f order others sane b stop)
Move-uses c f w c' f' w' others b sane (load e) = refl
Move-uses c f w c' f' w' others b sane (load_huge {order} {pos} e) =
    absurd (load_small c f order pos (others + 0) sane b e)
Move-uses c f w c' f' w' others b sane (clear v u at done) = refl
Move-uses c f w c' f' w' others b sane (clear_fails {order} {pos} v at done) =
    let run = sane.run in
    absurd (
      row_toggle-succeeds f order pos v b.field run.order_le run.inside run.aligned at sane.marked
        done)
Move-uses c f w c' f' w' others b sane (count {order} {d} up) =
    ground (arith, (Balance-inc c f order others sane b).0, up)
Move-uses c f w c' f' w' others b sane (count_fails {order} stop) =
    absurd (Effect-inc_fails c f order others sane b stop)
Move-uses c f w c' f' w' others b sane (take_whole e) = ground (arith, child_eq-eq c all_free e)
Move-uses c f w c' f' w' others b sane (put_whole e) = ground (arith, child_eq-eq c allocated e)
Move-uses c f w c' f' w' others b sane (put_whole_fails e) =
    absurd (put_whole_succeeds c f (others + 0) b sane e)
