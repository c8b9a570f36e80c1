-- ===== src/Tests/Threads.antt =====
-- src/lower.c with two threads on one child, at concrete interleavings.
use llfree_c.Base.{
  ◌+◌, ◌≡◌, ◌≢◌, refl, arith, false, some, [], ◌∷◌, set, get_elem?, total, total-cons, total-nil,
}
use llfree_c.Utils.{ctz, trailing_zeros}
use llfree_c.Child.{child_dec}
use llfree_c.Bitfield.{Hit, first_zeros_aligned}
use llfree_c.Lower.Undo.{all_free}
use llfree_c.Lower.Single.{IsChild}
use llfree_c.Lower.Threads.{holds, failed, World, Reach, here, later, pick, take, mark}
use llfree_c.Lower.Threads.Invariant.{owed, uses, owns}
use llfree_c.Lower.Threads.Safety.{
  fresh, threads_never_fail, owners_differ, frames_conserved, settled-IsChild,
}
use llfree_c.Tests.Bits.{empty_field}
use llfree_c.Tests.Children.{all_free-IsChild}

-- Both threads take frames off the counter before either of them marks its run.
abbrev both_hold : World
both_hold = record {
  child = record { free = 500; huge = false };
  bits = set (set empty_field 0 0xff) 0 0xfff;
  workers = holds 3 0 ∷ holds 2 8 ∷ [];
}

abbrev first_hit : Hit
first_hit = record { row = 0xff; pos = 0 }

abbrev second_hit : Hit
second_hit = record { row = 0xfff; pos = 8 }

interleaved : Reach (fresh all_free empty_field 2) both_hold
unfolding child_dec first_zeros_aligned trailing_zeros ctz
interleaved =
    later
      (later
        (later (later here (pick 0 refl (take (omega arith) refl)))
          (pick 1 refl (take (omega arith) refl)))
        (pick 0 refl (mark 0 0 first_hit refl refl)))
      (pick 1 refl (mark 0 0xff second_hit refl refl))

threads_never_fail_example : get_elem? both_hold.workers 1 ≢ some failed
threads_never_fail_example =
    threads_never_fail all_free empty_field 2 all_free-IsChild both_hold interleaved 1

owners_differ_example : owns (holds 2 8) 7 ≡ false
owners_differ_example =
    owners_differ all_free empty_field 2 all_free-IsChild both_hold interleaved 0 1 7 (holds 3 0)
      (holds 2 8) (omega arith) refl refl refl

frames_conserved_example : both_hold.child.free + total uses both_hold.workers ≡ all_free.free
frames_conserved_example =
    frames_conserved all_free empty_field 2 all_free-IsChild both_hold interleaved

both_hold-settled : total owed both_hold.workers ≡ 0
both_hold-settled = omega (
  arith,
  total-cons owed (holds 3 0) (holds 2 8 ∷ []),
  total-cons owed (holds 2 8) [],
  total-nil owed,
)

settled-IsChild_example : IsChild both_hold.child both_hold.bits
settled-IsChild_example =
    settled-IsChild all_free empty_field 2 all_free-IsChild both_hold interleaved both_hold-settled
