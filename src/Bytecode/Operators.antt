-- ===== src/Bytecode/Operators.antt =====
-- crates/js-bytecode/src/compiler.rs: the instructions of a binary operator, and the binary operator
-- of a compound assignment.
pub mod Emitted
pub mod Spelling
use justscript.Prelude.{Bool, true, false, not}
use justscript.Prelude.{not}
use justscript.Syntax.Op.{BinOp, AssignOp}
use justscript.Bytecode.Opcode.{Opcode}
use justscript.Bytecode.Function.{BytecodeFunction, emit_bare}

unfoldable pub emit_binop : BinOp → BytecodeFunction → BytecodeFunction
unfolding emit_bare
emit_binop BinOp.add f = emit_bare Opcode.add f
emit_binop BinOp.sub f = emit_bare Opcode.sub f
emit_binop BinOp.mul f = emit_bare Opcode.mul f
emit_binop BinOp.div f = emit_bare Opcode.div f
emit_binop BinOp.mod_op f = emit_bare Opcode.mod_op f
emit_binop BinOp.exp f = emit_bare Opcode.exp f
emit_binop BinOp.eq f = emit_bare Opcode.eq f
emit_binop BinOp.not_eq f = emit_bare Opcode.not (emit_bare Opcode.eq f)
emit_binop BinOp.strict_eq f = emit_bare Opcode.strict_eq f
emit_binop BinOp.strict_not_eq f = emit_bare Opcode.not (emit_bare Opcode.strict_eq f)
emit_binop BinOp.lt f = emit_bare Opcode.lt f
emit_binop BinOp.gt f = emit_bare Opcode.gt f
emit_binop BinOp.le f = emit_bare Opcode.le f
emit_binop BinOp.ge f = emit_bare Opcode.ge f
emit_binop BinOp.and f = emit_bare Opcode.logical_and f
emit_binop BinOp.or f = emit_bare Opcode.logical_or f
emit_binop BinOp.nullish_coal f = emit_bare Opcode.nullish_coal f
emit_binop BinOp.bit_and f = emit_bare Opcode.bit_and f
emit_binop BinOp.bit_or f = emit_bare Opcode.bit_or f
emit_binop BinOp.bit_xor f = emit_bare Opcode.bit_xor f
emit_binop BinOp.shl f = emit_bare Opcode.shl f
emit_binop BinOp.shr f = emit_bare Opcode.shr f
emit_binop BinOp.ushr f = emit_bare Opcode.ushr f
emit_binop BinOp.in_op f = emit_bare Opcode.in_op f
emit_binop BinOp.instanceof f = emit_bare Opcode.instanceof f

-- `matches!(op, AssignOp::And | AssignOp::Or | AssignOp::Nullish)`: the operators that are compiled
-- with jumps and never reach `compound_to_binop`.
unfoldable pub is_logical : AssignOp → Bool
is_logical AssignOp.and = true
is_logical AssignOp.or = true
is_logical AssignOp.nullish = true
is_logical _ = false

unfoldable pub compound_to_binop : AssignOp → BinOp
compound_to_binop AssignOp.add = BinOp.add
compound_to_binop AssignOp.sub = BinOp.sub
compound_to_binop AssignOp.mul = BinOp.mul
compound_to_binop AssignOp.div = BinOp.div
compound_to_binop AssignOp.mod_op = BinOp.mod_op
compound_to_binop AssignOp.exp = BinOp.exp
compound_to_binop AssignOp.bit_and = BinOp.bit_and
compound_to_binop AssignOp.bit_or = BinOp.bit_or
compound_to_binop AssignOp.bit_xor = BinOp.bit_xor
compound_to_binop AssignOp.shl = BinOp.shl
compound_to_binop AssignOp.shr = BinOp.shr
compound_to_binop AssignOp.ushr = BinOp.ushr
compound_to_binop AssignOp.and = BinOp.and
compound_to_binop AssignOp.or = BinOp.or
compound_to_binop AssignOp.nullish = BinOp.nullish_coal
compound_to_binop AssignOp.assign = BinOp.add
