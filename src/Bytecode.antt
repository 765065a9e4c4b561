-- ===== src/Bytecode.antt =====
-- crates/js-bytecode: opcodes, functions, constant pools, local tables, the verifier and parts of the compiler.
pub mod Opcode
pub mod Local
pub mod Constant
pub mod Function
pub mod Control
pub mod Operators
pub mod Scopes
pub mod Verify
mod Tests
