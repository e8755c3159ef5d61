-- ===== src/Text.antt =====
-- cpptools/utility/string.cpp: the string toolbox, over lists of bytes.
pub mod Chars
pub mod Pop
pub mod Trim
pub mod Comments
pub mod Contains
pub mod Tokens
pub mod Columns
pub mod Numbers
pub mod Decimal
pub mod Range
mod Tests
mod RangeTests
