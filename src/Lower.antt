-- ===== src/Lower.antt =====
-- src/lower.c: the lower allocator, which owns the bits and the counters of the frames.
pub mod State
pub mod Init
pub mod Update
pub mod Get
pub mod Put
pub mod Stats
pub mod Undo
pub mod Single
pub mod Claim
pub mod Invariant
pub mod GetSmall
pub mod RoundTrip
pub mod Huge
pub mod Spec
pub mod Sets
pub mod Refine
pub mod Split
pub mod Release
pub mod Counts
pub mod Ready
pub mod Threads
