-- ===== src/Syntax.antt =====
-- crates/js-syntax: positions, punctuators, keywords and operators.
pub mod Punctuator
pub mod Op
mod Tests
pub mod Source
pub mod Token
pub mod Keyword
