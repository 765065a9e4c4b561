-- ===== src/Lexer.antt =====
-- crates/js-lexer: the cursor, punctuators, numeric literals and the goal behind which a regex may stand.
pub mod Cursor
pub mod Punctuators
pub mod Goal
pub mod Numeric
mod Tests
