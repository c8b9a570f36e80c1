-- ===== src/Bitfield/FirstZeros.antt =====
-- `first_zeros_aligned` of src/bitfield.c against a search of the digits of the word in order.
pub mod Spec
pub mod Marks
pub mod Pairs
pub mod Correct
