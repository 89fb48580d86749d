-- ===== src/Bits.antt =====
-- Laws of the bit operations that the C code uses, at variables.
pub mod Step
pub mod Xor
pub mod And
pub mod Fields
pub use Step.{bit_xor_step, bit_and_step, bit_or_step}
