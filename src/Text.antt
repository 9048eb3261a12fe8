-- ===== src/Text.antt =====
-- What the program uses of Rust's text functions, over UTF-8 byte strings.
pub mod Utf8
pub mod Decimal
pub mod Trim
