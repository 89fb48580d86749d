-- ===== src/Util.antt =====
-- src/util.c: memory, strings, characters and pseudo-random numbers.
pub mod Memory
pub mod Compare
pub mod Strings
pub mod Rand
pub mod Strtol
mod Tests
