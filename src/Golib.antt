-- ===== src/Golib.antt =====
-- The parts of Go's standard library that the program calls, over byte strings.
pub mod Utf8
pub mod Strings
pub mod Strconv
pub mod Map
pub mod Int64
