-- ===== src/Go.antt =====
-- What the program uses of the Go language and its standard library.
pub mod Int64
pub mod Fmt
pub mod Strings
pub mod Exec
