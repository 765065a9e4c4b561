-- ===== src/Bytecode/Operators/Spelling.antt =====
-- crates/js-bytecode/src/compiler.rs: compound assignments, from their spelling to the instruction
-- between the load of the target and its store.
use mathlib.Core.Path.{subst}
use justscript.Prelude.{◌≡◌, refl, ◌≢◌, false, Option, none, some, [], ◌∷◌, ◌++◌, codes}
use justscript.Syntax.Punctuator.{Punctuator, as_str}
use justscript.Syntax.Op.{BinOp, AssignOp, from_punctuator}
use justscript.Parser.Operators.{assign_op}
use justscript.Bytecode.Opcode.{bare, for_binop}
use justscript.Bytecode.Function.{BytecodeFunction}
use justscript.Bytecode.Operators.{emit_binop, compound_to_binop, is_logical}

-- The punctuator `p` is spelled as `q` and `=`, `q` is read as the binary operator `b`, and what is
-- emitted for the assignment operator `a` behind the code of `f` is the one instruction of `b`.
abbrev pub IsApplied : AssignOp → BytecodeFunction → Punctuator → Punctuator → BinOp → Type 0
IsApplied a f p q b =
    (as_str p ≡ as_str q ++ codes "=")
    × (from_punctuator q ≡ some b)
    × ((emit_binop (compound_to_binop a) f).code ≡ f.code ++ bare (for_binop b) ∷ [])

abbrev WhereApplied : BytecodeFunction → Punctuator → Option AssignOp → Type 0
WhereApplied f p none = Unit
WhereApplied f p (some a) =
    is_logical a ≡ false
    → a ≢ AssignOp.assign
    → (q : Punctuator) × (b : BinOp) × IsApplied a f p q b

assign_op-WhereApplied : (p : Punctuator) (f : BytecodeFunction) → WhereApplied f p (assign_op p)
unfolding assign_op from_punctuator compound_to_binop is_logical as_str emit_binop for_binop
assign_op-WhereApplied Punctuator.assign f = λ h k. absurd (k refl)
assign_op-WhereApplied Punctuator.add_assign f =
    λ h k. (Punctuator.add, BinOp.add, (refl, refl, refl))
assign_op-WhereApplied Punctuator.sub_assign f =
    λ h k. (Punctuator.sub, BinOp.sub, (refl, refl, refl))
assign_op-WhereApplied Punctuator.mul_assign f =
    λ h k. (Punctuator.mul, BinOp.mul, (refl, refl, refl))
assign_op-WhereApplied Punctuator.div_assign f =
    λ h k. (Punctuator.div, BinOp.div, (refl, refl, refl))
assign_op-WhereApplied Punctuator.mod_assign f =
    λ h k. (Punctuator.mod_op, BinOp.mod_op, (refl, refl, refl))
assign_op-WhereApplied Punctuator.exp_assign f =
    λ h k. (Punctuator.exp, BinOp.exp, (refl, refl, refl))
assign_op-WhereApplied Punctuator.bit_and_assign f =
    λ h k. (Punctuator.bit_and, BinOp.bit_and, (refl, refl, refl))
assign_op-WhereApplied Punctuator.bit_or_assign f =
    λ h k. (Punctuator.bit_or, BinOp.bit_or, (refl, refl, refl))
assign_op-WhereApplied Punctuator.bit_xor_assign f =
    λ h k. (Punctuator.bit_xor, BinOp.bit_xor, (refl, refl, refl))
assign_op-WhereApplied Punctuator.shl_assign f =
    λ h k. (Punctuator.shl, BinOp.shl, (refl, refl, refl))
assign_op-WhereApplied Punctuator.shr_assign f =
    λ h k. (Punctuator.shr, BinOp.shr, (refl, refl, refl))
assign_op-WhereApplied Punctuator.ushr_assign f =
    λ h k. (Punctuator.ushr, BinOp.ushr, (refl, refl, refl))
assign_op-WhereApplied Punctuator.and_assign f = λ h k. absurd (cc)
assign_op-WhereApplied Punctuator.or_assign f = λ h k. absurd (cc)
assign_op-WhereApplied Punctuator.nullish_assign f = λ h k. absurd (cc)
assign_op-WhereApplied _ f = tt

-- A punctuator that is read as an assignment operator other than `=`, `&&=`, `||=` and `??=` is the
-- spelling of a binary operator and `=`, and the code emitted for the assignment operator is the
-- instruction of that binary operator.
pub emit_binop-compound_to_binop :
    (p : Punctuator) (a : AssignOp) (f : BytecodeFunction)
    → assign_op p ≡ some a
    → is_logical a ≡ false
    → a ≢ AssignOp.assign
    → (q : Punctuator) × (b : BinOp) × IsApplied a f p q b
emit_binop-compound_to_binop p a f e = subst (WhereApplied f p) e (assign_op-WhereApplied p f)
