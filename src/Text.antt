-- ===== src/Text.antt =====
-- Texts as the code has them: a Rust `str` is the list of its Unicode scalar values. The
-- children have the encodings of the standard library that the program uses.
pub mod Utf16
pub mod Utf8
pub mod Pieces
pub mod Trim
pub mod Lines
pub mod Decimal
pub mod Printable
