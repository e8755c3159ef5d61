-- ===== src/Values.antt =====
-- Numbers that stay within bounds: cpptools/utility/clamped_value.hpp and wrapping_value.hpp.
pub mod Clamped
pub mod Wrapping
mod Tests
