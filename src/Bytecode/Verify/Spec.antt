-- ===== src/Bytecode/Verify/Spec.antt =====
-- What a backend may assume of verified bytecode, said of positions and not of the verifier's loops.
use justscript.Prelude.{ℕ, ◌≤◌, ◌<◌, ◌≡◌, Option, none, some, length, Each}
use justscript.Bytecode.Opcode.{OperandKind, operand_kind}
use justscript.Bytecode.Local.{slot_count}
use justscript.Bytecode.Constant.{len}
use justscript.Bytecode.Function.{BytecodeFunction, BytecodeModule}

-- The operand names something that is there.
abbrev pub OperandInRange : BytecodeModule → BytecodeFunction → OperandKind → ℕ → Type 0
OperandInRange module' f OperandKind.none operand = operand ≡ 0
OperandInRange module' f OperandKind.constant operand = operand < len module'.constants
OperandInRange module' f OperandKind.local operand = operand < slot_count f.locals
OperandInRange module' f OperandKind.upvalue operand = operand < length f.upvalues
OperandInRange module' f OperandKind.function operand =
    (0 < operand) × (operand ≤ length module'.functions)
OperandInRange module' f OperandKind.jump_target operand = operand ≤ length f.code
OperandInRange module' f OperandKind.argument_count operand = Unit
OperandInRange module' f OperandKind.handler operand = operand < length f.handlers
OperandInRange module' f OperandKind.class_field operand = Unit
OperandInRange module' f OperandKind.template_site operand = operand < length f.template_sites

abbrev pub TargetInRange : BytecodeFunction → Option ℕ → Type 0
TargetInRange f none = Unit
TargetInRange f (some pc) = pc < length f.code

pub record IsWellFormed (module' : BytecodeModule) (f : BytecodeFunction) : Type 0 where
  pub aligned : length f.code ≡ length f.source_map
  pub params_fit : f.param_count ≤ slot_count f.locals
  pub upvalues_named : length f.upvalues ≡ length f.upvalue_names
  pub operands : Each (λ ins. OperandInRange module' f (operand_kind ins.op) ins.operand) f.code
  pub handlers : Each (λ h. TargetInRange f h.catch_pc × TargetInRange f h.finally_pc) f.handlers

-- The entry function and every nested function.
abbrev pub IsModule : BytecodeModule → Type 0
IsModule module' = IsWellFormed module' module'.main × Each (IsWellFormed module') module'.functions
