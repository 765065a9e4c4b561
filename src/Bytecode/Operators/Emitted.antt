-- ===== src/Bytecode/Operators/Emitted.antt =====
-- crates/js-bytecode/src/compiler.rs: `emit_binop` against `Opcode::for_binop`.
use mathlib.Core.List.{append_assoc}
use justscript.Prelude.{◌≡◌, refl, List, [], ◌∷◌, ◌++◌}
use justscript.Syntax.Op.{BinOp}
use justscript.Bytecode.Opcode.{Opcode, Instruction, bare, for_binop}
use justscript.Bytecode.Function.{BytecodeFunction}
use justscript.Bytecode.Operators.{emit_binop}

-- The instructions behind the opcode of the operator: the two unequal tests negate an equal test.
abbrev pub negation : BinOp → List Instruction
negation BinOp.not_eq = bare Opcode.not ∷ []
negation BinOp.strict_not_eq = bare Opcode.not ∷ []
negation _ = []

-- The code of `emit_binop` is the opcode that `for_binop` gives and, for the two unequal tests, a
-- negation behind it; nothing else of the code changes.
pub emit_binop-for_binop :
    (op : BinOp) (f : BytecodeFunction)
    → (emit_binop op f).code ≡ f.code ++ bare (for_binop op) ∷ negation op
unfolding emit_binop for_binop
emit_binop-for_binop BinOp.add f = refl
emit_binop-for_binop BinOp.sub f = refl
emit_binop-for_binop BinOp.mul f = refl
emit_binop-for_binop BinOp.div f = refl
emit_binop-for_binop BinOp.mod_op f = refl
emit_binop-for_binop BinOp.exp f = refl
emit_binop-for_binop BinOp.eq f = refl
emit_binop-for_binop BinOp.not_eq f = append_assoc f.code _ _
emit_binop-for_binop BinOp.strict_eq f = refl
emit_binop-for_binop BinOp.strict_not_eq f = append_assoc f.code _ _
emit_binop-for_binop BinOp.lt f = refl
emit_binop-for_binop BinOp.gt f = refl
emit_binop-for_binop BinOp.le f = refl
emit_binop-for_binop BinOp.ge f = refl
emit_binop-for_binop BinOp.and f = refl
emit_binop-for_binop BinOp.or f = refl
emit_binop-for_binop BinOp.nullish_coal f = refl
emit_binop-for_binop BinOp.bit_and f = refl
emit_binop-for_binop BinOp.bit_or f = refl
emit_binop-for_binop BinOp.bit_xor f = refl
emit_binop-for_binop BinOp.shl f = refl
emit_binop-for_binop BinOp.shr f = refl
emit_binop-for_binop BinOp.ushr f = refl
emit_binop-for_binop BinOp.in_op f = refl
emit_binop-for_binop BinOp.instanceof f = refl
