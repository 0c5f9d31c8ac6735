-- ===== src/GoStd.antt =====
-- What the program uses of Go's packages `strings`, `net` (addresses) and `flag`.
pub mod Strings
pub mod Net
pub mod Flag
