-- ===== src/Str.antt =====
-- What the source uses of Rust's `str`, over lists of code points.
pub mod Trim
pub mod Lines
pub mod Decimal
pub mod Utf8
