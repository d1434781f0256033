-- ===== src/Text/Laws.antt =====
-- Laws of the text functions.
pub mod Rsplit
mod Tests
