-- ===== src/Go.antt =====
-- What the program uses of Go's standard library, over strings as lists of bytes.
pub mod Utf8
pub mod Unicode
pub mod Strings
pub mod Base64
pub mod Scan
