-- ===== src/Runtime.antt =====
-- crates/js-runtime: values of the running program.
pub mod BigInt
pub mod Cell
mod Tests
