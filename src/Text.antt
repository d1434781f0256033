-- ===== src/Text.antt =====
-- Python's `str` as the list of its code points, with the methods of `str`, the membership tests
-- and the character classes of `re` that the program uses.
mod Codes
mod Classes
mod Ops
mod Numbers
pub mod Laws
unfoldable pub use Codes.*
unfoldable pub use Classes.*
unfoldable pub use Ops.*
unfoldable pub use Numbers.*
