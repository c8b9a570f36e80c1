-- ===== src/Tests.antt =====
-- Concrete inputs: small runs of the code, and each theorem at an input where its hypotheses hold.
pub mod Allocator
pub mod Bits
pub mod Children
pub mod Entries
pub mod Huge
pub mod Requests
pub mod Spec
pub mod Threads
pub mod Upper
