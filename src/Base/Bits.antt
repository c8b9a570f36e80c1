-- ===== src/Base/Bits.antt =====
-- Bits of native numbers: the bitwise operations digit by digit, at every width.
mod Step
mod Split
mod Zero
pub use Step.*
pub use Split.*
pub use Zero.*
