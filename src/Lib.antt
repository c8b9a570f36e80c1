-- ===== src/Lib.antt =====
-- LLFree, a page frame allocator in C.
--
-- The program. Physical memory is a row of frames, grouped into children of 512 frames and trees of
-- eight children. The lower allocator (src/lower.c) owns the state of every frame: a bit field for
-- each child (src/bitfield.c) and a counter with a flag for huge pages (src/child.c). Above it an
-- array of tree entries (src/trees.c, src/tree.c) counts the free frames of each tree, and every
-- core reserves trees of the classes it uses (src/local.c), so that cores seldom meet. The allocator
-- (src/llfree.c) answers a request by choosing a tree by a policy (include/llfree.h), taking the
-- frames off its counter and letting the lower allocator find and mark them; freeing goes the other
-- way.
--
-- The files.
--   Base      the numbers, lists and options that all parts use. Base.Fault is the monad of code that
--             may stop: `none` is an assertion that fails or an access out of range. Base.Bits has
--             the laws of the bitwise operations.
--   Types     include/llfree.h and std/llfree_types.h: constants, results, requests, policies.
--   Utils     src/utils.h. Utils.Words is about bit counts, Utils.Align about alignment,
--             Utils.Powers about `next_pow2`, Utils.Offsetted about `for_offsetted`; Utils.Wrap is a
--             lemma on remainders.
--   Bitfield  src/bitfield.c, with a bit field as the list of its eight words. FirstZeros is about the
--             search inside a word against a reading of it digit by digit; SetNext, Toggle and
--             RoundTrip are about the fields; Field, Slots and Masks have their lemmas; Undo is about
--             runs of several rows that cannot be toggled. Bits and Frames read a field as one bit for
--             each frame; Claims, Clear and Mark say which bits an operation sets and clears.
--   Child     src/child.h and src/child.c.
--   Lower     src/lower.c: State, Init, Update, Get, Put and Stats are its functions. Single, Claim,
--             Invariant and GetSmall lead from one child to `lower_get`; RoundTrip adds `lower_put`;
--             Huge is about runs of whole children, Undo about those whose update has to be undone.
--             Spec has the allocator as a set of free frames: Refine and Release hold `lower_get` and
--             `lower_put` against it, with Sets and Split (`split_huge`) below them, and Init.Start
--             and Init.Recovery hold `lower_init` against it, with Init.Fields, Init.Loops and
--             Init.Heal below. Ready is what src/llfree.c relies on, with the free frames of each tree
--             (Counts): Gets, GetsAt and Puts are its requests. Stats.Frame and Stats.Total are about
--             the statistics. Threads is src/lower.c with several threads on one child: Invariant,
--             Balance and Effects lead to Moves, one access, and Safety, all interleavings.
--   Policy    the policies and classings of include/llfree.h.
--   Tree      src/tree.h and src/tree.c, one entry.
--   Trees     src/trees.h and src/trees.c; Search has the two searches and `trees_change`, Rounds,
--             Stats and Change are about the order of a search, `trees_stats` and `trees_change`.
--   Local     src/local.h and src/local.c; Steal has the search for another class's trees, Stats the
--             statistics and the validation, Laws is about the counters of the slots.
--   Llfree    src/llfree.c; Get is `llfree_get`, Meta the metadata, the tree statistics and the
--             validation, Placement is about `check_meta`, Manage the rest of the interface. Upper has
--             the invariant of the whole allocator, with the frames in the hand of the operation that
--             runs: Steps is one write, Entries the tree array, Slots, Swaps, Steal, Demote and
--             DemoteAny the slots, Searches the search for a tree. Reserve and Callbacks are
--             `reserve_or_steal_cb` and `steal_cb`; Own, OwnSlot, Others, Places, At and Any are the
--             parts of `llfree_get`, which end as Ends and Moved say; Requests is `validate_request`.
--             Gets, Puts, Drained and Init are the interface, with the rounds of `llfree_drain` in
--             Drain and the trees that slots reserve in Paired; History and Balance are sequences of
--             calls, and Safety starts them at `llfree_init`.
--   Tests     concrete inputs.
--
-- The model. A function of C is the function of the same name, and a loop is a function over the
-- rounds that are left, so that no fuel is needed. State that C reaches through a pointer is passed
-- and returned; a `bool` function that fails leaves `none` where its caller sees the failure. Numbers
-- are natural numbers, with the wrap-around of `uint64_t`, `uint32_t`, `uint16_t`, `uint8_t` and of
-- bit fields written out wherever the C type can reach it. `assert` is checked, as in the
-- repository's builds. The policy of a classing is a parameter, as it is in C.
--
-- Each atomic access is one step, and the functions run one thread: an update of the loop kind succeeds
-- at its first exchange, and a compare-and-exchange fails only when the values differ. The wait of
-- `split_huge` for another thread runs its `RETRIES` rounds on a state that does not change.
--
-- Lower.Threads has any number of threads on one child, for runs inside a row and for the child as a
-- huge page. `Worker` is where a thread stands between two accesses, `Move` an access with the
-- function of Child or Bitfield that it exchanges by, and `Step` picks any thread, so that a reachable
-- `World` is one after some interleaving. A thread frees only what it has allocated, in the size in
-- which it has allocated it; splitting a huge page and runs of several rows are left out there.
--
-- Bounds. The theorems on bit fields, and on `lower_get` and `lower_put`, are for runs inside a row
-- of 64 frames (orders 0 to 6), where not said otherwise; so are those on `llfree_get` and
-- `llfree_put`, and for fewer than `2 ^ 41` frames, since a reservation has 35 bits for the row where
-- its tree starts. A child is sound when its counter and the
-- bits that are set add up to 512, or when it is huge, has no free frame and no bit set; an allocator
-- is sound when every child is, and the entries behind the last child have no free frame.
--
-- Not modelled. Output (`field_print`, `lower_print`, `tree_print`, `trees_print`, `ll_local_print`,
-- `llfree_print`, `llfree_print_debug`), the pointers that `llfree_metadata`, `lower_metadata` and
-- `trees_metadata` read, and the history of frees, which LLFREE_ENABLE_FREE_RESERVE switches off. The
-- atomics and the logging of std/llfree_platform.h are the compiler's. The programs under tests/ are
-- tests.
pub mod Base
pub mod Types
pub mod Utils
pub mod Bitfield
pub mod Child
pub mod Lower
pub mod Policy
pub mod Tree
pub mod Trees
pub mod Local
pub mod Llfree
pub mod Tests
