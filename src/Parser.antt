-- ===== src/Parser.antt =====
-- crates/js-parser: the token stream, regular expressions, operators and scopes of the parser.
pub mod Stream
pub mod Regexp
pub mod Operators
pub mod EarlyErrors
mod Tests
