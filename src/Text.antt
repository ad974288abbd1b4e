-- ===== src/Text.antt =====
-- Rust's `str` as a list of code points (its bytes, where the text is ASCII), and the operations of
-- the standard library that the crate calls on it.
mod Chars
mod Split
mod Number
pub mod Utf8
pub mod Parts
unfoldable pub use Chars.*
unfoldable pub use Split.*
unfoldable pub use Number.*
unfoldable pub use Utf8.*
