-- ===== src/Parser/Operators.antt =====
-- crates/js-parser/src/expr.rs: the assignment operator of a punctuator and the binding power of a
-- binary operator.
pub mod Binding
use justscript.Prelude.{ℕ, Option, none, some}
use justscript.Syntax.Punctuator.{Punctuator}
use justscript.Syntax.Op.{BinOp, AssignOp}

-- The `match` of `parse_assignment_inner`; `none` returns the left side alone.
unfoldable pub assign_op : Punctuator → Option AssignOp
assign_op Punctuator.assign = some AssignOp.assign
assign_op Punctuator.add_assign = some AssignOp.add
assign_op Punctuator.sub_assign = some AssignOp.sub
assign_op Punctuator.mul_assign = some AssignOp.mul
assign_op Punctuator.div_assign = some AssignOp.div
assign_op Punctuator.mod_assign = some AssignOp.mod_op
assign_op Punctuator.exp_assign = some AssignOp.exp
assign_op Punctuator.bit_and_assign = some AssignOp.bit_and
assign_op Punctuator.bit_or_assign = some AssignOp.bit_or
assign_op Punctuator.bit_xor_assign = some AssignOp.bit_xor
assign_op Punctuator.shl_assign = some AssignOp.shl
assign_op Punctuator.shr_assign = some AssignOp.shr
assign_op Punctuator.ushr_assign = some AssignOp.ushr
assign_op Punctuator.and_assign = some AssignOp.and
assign_op Punctuator.or_assign = some AssignOp.or
assign_op Punctuator.nullish_assign = some AssignOp.nullish
assign_op _ = none

unfoldable pub binding_power : BinOp → Option (ℕ × ℕ)
binding_power BinOp.nullish_coal = some (1, 2)
binding_power BinOp.or = some (1, 2)
binding_power BinOp.and = some (3, 4)
binding_power BinOp.bit_or = some (5, 6)
binding_power BinOp.bit_xor = some (7, 8)
binding_power BinOp.bit_and = some (9, 10)
binding_power BinOp.eq = some (11, 12)
binding_power BinOp.not_eq = some (11, 12)
binding_power BinOp.strict_eq = some (11, 12)
binding_power BinOp.strict_not_eq = some (11, 12)
binding_power BinOp.lt = some (13, 14)
binding_power BinOp.gt = some (13, 14)
binding_power BinOp.le = some (13, 14)
binding_power BinOp.ge = some (13, 14)
binding_power BinOp.instanceof = some (13, 14)
binding_power BinOp.in_op = some (13, 14)
binding_power BinOp.shl = some (15, 16)
binding_power BinOp.shr = some (15, 16)
binding_power BinOp.ushr = some (15, 16)
binding_power BinOp.add = some (17, 18)
binding_power BinOp.sub = some (17, 18)
binding_power BinOp.mul = some (19, 20)
binding_power BinOp.div = some (19, 20)
binding_power BinOp.mod_op = some (19, 20)
binding_power BinOp.exp = some (23, 22)
