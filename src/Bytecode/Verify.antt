-- ===== src/Bytecode/Verify.antt =====
-- crates/js-bytecode/src/verify.rs: the structural verifier. A message is a value of `Message`, which
-- holds what the source formats.
pub mod Spec
pub mod Sound
use justscript.Prelude.{
  ℕ, ◌+◌, Bool, true, false, not, ◌&&◌, Option, none, some, List, [], ◌∷◌, ◌++◌, ltb, leb,
  if◌then◌else◌, ◌==◌, length, nat_eq, list_eq,
}
use justscript.Bytecode.Opcode.{Opcode, OperandKind, Instruction, operand_kind}
use justscript.Bytecode.Local.{slot_count}
use justscript.Bytecode.Constant.{len}
use justscript.Bytecode.Function.{BytecodeFunction, BytecodeModule, HandlerSpec}

pub data Message : Type 0 where
  source_map_mismatch parameters_exceed_locals upvalue_name_mismatch : ℕ → ℕ → Message
  invalid_operand : OperandKind → ℕ → Opcode → Message
  invalid_catch_target invalid_finally_target : ℕ → Option ℕ → Message

pub record VerifyError : Type 0 where
  pub function : ℕ
  pub pc : Option ℕ
  pub message : Message

unfoldable pub operand_valid : BytecodeModule → BytecodeFunction → OperandKind → ℕ → Bool
operand_valid module' f OperandKind.none operand = operand == 0
operand_valid module' f OperandKind.constant operand = ltb operand (len module'.constants)
operand_valid module' f OperandKind.local operand = ltb operand (slot_count f.locals)
operand_valid module' f OperandKind.upvalue operand = ltb operand (length f.upvalues)
operand_valid module' f OperandKind.function operand =
    ltb 0 operand && leb operand (length module'.functions)
operand_valid module' f OperandKind.jump_target operand = leb operand (length f.code)
operand_valid module' f OperandKind.argument_count operand = true
operand_valid module' f OperandKind.handler operand = ltb operand (length f.handlers)
operand_valid module' f OperandKind.class_field operand = true
operand_valid module' f OperandKind.template_site operand = ltb operand (length f.template_sites)

-- The errors of the instructions from `pc` on.
unfoldable pub verify_code :
    BytecodeModule → BytecodeFunction → ℕ → ℕ → List Instruction → List VerifyError
unfolding operand_valid operand_kind
verify_code module' f id pc [] = []
verify_code module' f id pc (ins ∷ rest) =
    let kind = operand_kind ins.op in
    (if operand_valid module' f kind ins.operand
      then []
      else record { function = id; pc = some pc; message = invalid_operand kind ins.operand ins.op }
        ∷ [])
    ++ verify_code module' f id (pc + 1) rest

-- `target.is_some_and(|pc| pc as usize >= function.code.len())`
unfoldable pub target_invalid : BytecodeFunction → Option ℕ → Bool
target_invalid f none = false
target_invalid f (some pc) = leb (length f.code) pc

-- The errors of the handlers from `index` on.
unfoldable pub verify_handlers : BytecodeFunction → ℕ → ℕ → List HandlerSpec → List VerifyError
unfolding target_invalid
verify_handlers f id index [] = []
verify_handlers f id index (h ∷ rest) =
    (if target_invalid f h.catch_pc
      then record { function = id; pc = none; message = invalid_catch_target index h.catch_pc } ∷ []
      else [])
    ++ ((if target_invalid f h.finally_pc
          then record {
            function = id;
            pc = none;
            message = invalid_finally_target index h.finally_pc;
          }
            ∷ []
          else [])
        ++ verify_handlers f id (index + 1) rest)

unfoldable pub function_error : ℕ → Bool → Message → List VerifyError
function_error id bad m = if bad then record { function = id; pc = none; message = m } ∷ [] else []

-- What `verify_function` adds to the errors.
unfoldable pub verify_function : BytecodeModule → BytecodeFunction → ℕ → List VerifyError
unfolding function_error verify_code verify_handlers
verify_function module' f id =
    function_error id (not (length f.code == length f.source_map))
      (source_map_mismatch (length f.code) (length f.source_map))
    ++ (function_error id (ltb (slot_count f.locals) f.param_count)
          (parameters_exceed_locals f.param_count (slot_count f.locals))
        ++ (function_error id (not (length f.upvalues == length f.upvalue_names))
              (upvalue_name_mismatch (length f.upvalues) (length f.upvalue_names))
            ++ (verify_code module' f id 0 f.code ++ verify_handlers f id 0 f.handlers)))

-- `for (index, function) in module.functions.iter().enumerate()`
unfoldable pub verify_functions : BytecodeModule → ℕ → List BytecodeFunction → List VerifyError
unfolding verify_function
verify_functions module' index [] = []
verify_functions module' index (f ∷ rest) =
    verify_function module' f (index + 1) ++ verify_functions module' (index + 1) rest

pub data Verified : Type 0 where
  ok : Verified
  err : List VerifyError → Verified

unfoldable pub from_errors : List VerifyError → Verified
from_errors [] = ok
from_errors (e ∷ es) = err (e ∷ es)

unfoldable pub verify_module : BytecodeModule → Verified
unfolding verify_functions from_errors
verify_module module' =
    from_errors
      (verify_function module' module'.main 0 ++ verify_functions module' 0 module'.functions)
