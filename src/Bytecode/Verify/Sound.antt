-- ===== src/Bytecode/Verify/Sound.antt =====
-- crates/js-bytecode/src/verify.rs: `verify_module` accepts just the well-formed modules.
use justscript.Prelude.{
  ℕ, ◌+◌, ◌≡◌, refl, ◌↔◌, Bool, true, false, not, Option, none, some, List, [], ◌∷◌, ◌++◌, arith,
  ltb, if◌then◌else◌, ◌==◌, length, Each, Each-nil, Each-cons, Each-head, Each-tail, nat_eq,
  list_eq,
}
use justscript.Bytecode.Opcode.{OperandKind, Instruction, operand_kind}
use justscript.Bytecode.Function.{BytecodeFunction, BytecodeModule, HandlerSpec}
use justscript.Bytecode.Verify.Spec.{OperandInRange, TargetInRange, IsWellFormed, IsModule}
use justscript.Bytecode.Local.{slot_count}
use justscript.Bytecode.Verify.{
  Message, source_map_mismatch, parameters_exceed_locals, upvalue_name_mismatch, VerifyError,
  operand_valid, verify_code, target_invalid, verify_handlers, function_error, verify_function,
  verify_functions, ok, from_errors, verify_module,
}

-- Both halves of an empty list are empty, and the other way round.
append-eq-nil {ℓ} : {A : Type ℓ} (xs ys : List A) → (xs ++ ys ≡ []) ↔ ((xs ≡ []) × (ys ≡ []))
append-eq-nil [] ys = (λ h. (refl, h), λ h. h.1)
append-eq-nil (x ∷ xs) ys = (λ h. absurd (cc), λ h. absurd (cc))

if_nil_iff {ℓ} : {A : Type ℓ} (b : Bool) (e : A) → ((if b then [] else e ∷ []) ≡ []) ↔ (b ≡ true)
if_nil_iff true e = (λ _. refl, λ _. refl)
if_nil_iff false e = (λ h. absurd (cc), λ h. absurd (cc))

if_error_iff {ℓ} : {A : Type ℓ} (b : Bool) (e : A) → ((if b then e ∷ [] else []) ≡ []) ↔ (b ≡ false)
if_error_iff true e = (λ h. absurd (cc), λ h. absurd (cc))
if_error_iff false e = (λ _. refl, λ _. refl)

function_error_iff :
    (id : ℕ) (bad : Bool) (message : Message) → (function_error id bad message ≡ []) ↔ (bad ≡ false)
unfolding function_error
function_error_iff id bad message = if_error_iff bad _

module _ (m : BytecodeModule) (f : BytecodeFunction) where
  operand_valid_iff :
      (kind : OperandKind) (operand : ℕ)
      → (operand_valid m f kind operand ≡ true) ↔ OperandInRange m f kind operand
  unfolding operand_valid
  operand_valid_iff OperandKind.none operand = ground arith
  operand_valid_iff _ operand = ground arith

  target_invalid_iff : (t : Option ℕ) → (target_invalid f t ≡ false) ↔ TargetInRange f t
  unfolding target_invalid
  target_invalid_iff none = ground arith
  target_invalid_iff (some pc) = ground arith

  abbrev InstructionInRange : Instruction → Type 0
  InstructionInRange ins = OperandInRange m f (operand_kind ins.op) ins.operand

  verify_code_iff :
      (id pc : ℕ) (code : List Instruction)
      → (verify_code m f id pc code ≡ []) ↔ Each InstructionInRange code
  unfolding verify_code
  verify_code_iff id pc [] = (λ _. Each-nil InstructionInRange, λ _. refl)
  verify_code_iff id pc (ins ∷ rest) =
      let valid = operand_valid m f (operand_kind ins.op) ins.operand in
      let split = append-eq-nil _ (verify_code m f id (pc + 1) rest) in
      let here = operand_valid_iff (operand_kind ins.op) ins.operand in
      let later = verify_code_iff id (pc + 1) rest in
      (
        λ h.
            Each-cons InstructionInRange ins rest (here.0 ((if_nil_iff valid _).0 (split.0 h).0))
              (later.0 (split.0 h).1),
        λ all. split.1 (
          (if_nil_iff valid _).1 (here.1 (Each-head InstructionInRange ins rest all)),
          later.1 (Each-tail InstructionInRange ins rest all),
        ),
      )

  abbrev HandlerInRange : HandlerSpec → Type 0
  HandlerInRange h = TargetInRange f h.catch_pc × TargetInRange f h.finally_pc

  verify_handlers_iff :
      (id index : ℕ) (hs : List HandlerSpec)
      → (verify_handlers f id index hs ≡ []) ↔ Each HandlerInRange hs
  unfolding verify_handlers
  verify_handlers_iff id index [] = (λ _. Each-nil HandlerInRange, λ _. refl)
  verify_handlers_iff id index (h ∷ rest) =
      let outer = append-eq-nil _ (_ ++ verify_handlers f id (index + 1) rest) in
      let inner = append-eq-nil _ (verify_handlers f id (index + 1) rest) in
      let later = verify_handlers_iff id (index + 1) rest in
      let bad_catch = if_error_iff (target_invalid f h.catch_pc) _ in
      let bad_finally = if_error_iff (target_invalid f h.finally_pc) _ in
      (
        λ e.
            let (c, e') = outer.0 e in
            let (d, e'') = inner.0 e' in
            Each-cons HandlerInRange h rest
              (
                (target_invalid_iff h.catch_pc).0 (bad_catch.0 c),
                (target_invalid_iff h.finally_pc).0 (bad_finally.0 d),
              )
              (later.0 e''),
        λ all.
            let (c, d) = Each-head HandlerInRange h rest all in
            outer.1 (
              bad_catch.1 ((target_invalid_iff h.catch_pc).1 c),
              inner.1 (
                bad_finally.1 ((target_invalid_iff h.finally_pc).1 d),
                later.1 (Each-tail HandlerInRange h rest all),
              ),
            ),
      )

  verify_function_iff : (id : ℕ) → (verify_function m f id ≡ []) ↔ IsWellFormed m f
  unfolding verify_function
  verify_function_iff id =
      let code = verify_code_iff id 0 f.code in
      let handlers = verify_handlers_iff id 0 f.handlers in
      let tables = verify_code m f id 0 f.code ++ verify_handlers f id 0 f.handlers in
      let a = not (length f.code == length f.source_map) in
      let b = ltb (slot_count f.locals) f.param_count in
      let c = not (length f.upvalues == length f.upvalue_names) in
      let ea = function_error id a (source_map_mismatch (length f.code) (length f.source_map)) in
      let eb = function_error id b (parameters_exceed_locals f.param_count (slot_count f.locals)) in
      let ec =
        function_error id c (upvalue_name_mismatch (length f.upvalues) (length f.upvalue_names)) in
      let split₁ = append-eq-nil ea (eb ++ (ec ++ tables)) in
      let split₂ = append-eq-nil eb (ec ++ tables) in
      let split₃ = append-eq-nil ec tables in
      let split₄ =
        append-eq-nil (verify_code m f id 0 f.code) (verify_handlers f id 0 f.handlers) in
      (
        λ e.
            let (none_a, rest₁) = split₁.0 e in
            let (none_b, rest₂) = split₂.0 rest₁ in
            let (none_c, rest₃) = split₃.0 rest₂ in
            let (none_code, none_handlers) = split₄.0 rest₃ in
            record {
              aligned = ground (arith, (function_error_iff id a _).0 none_a);
              params_fit = ground (arith, (function_error_iff id b _).0 none_b);
              upvalues_named = ground (arith, (function_error_iff id c _).0 none_c);
              operands = code.0 none_code;
              handlers = handlers.0 none_handlers;
            },
        λ w. split₁.1 (
          (function_error_iff id a _).1 (ground arith),
          split₂.1 (
            (function_error_iff id b _).1 (ground arith),
            split₃.1 (
              (function_error_iff id c _).1 (ground arith),
              split₄.1 (code.1 w.operands, handlers.1 w.handlers),
            ),
          ),
        ),
      )

verify_functions_iff :
    (m : BytecodeModule) (index : ℕ) (fs : List BytecodeFunction)
    → (verify_functions m index fs ≡ []) ↔ Each (IsWellFormed m) fs
unfolding verify_functions
verify_functions_iff m index [] = (λ _. Each-nil (IsWellFormed m), λ _. refl)
verify_functions_iff m index (f ∷ rest) =
    let split =
      append-eq-nil (verify_function m f (index + 1)) (verify_functions m (index + 1) rest) in
    let here = verify_function_iff m f (index + 1) in
    let later = verify_functions_iff m (index + 1) rest in
    (
      λ e. Each-cons (IsWellFormed m) f rest (here.0 (split.0 e).0) (later.0 (split.0 e).1),
      λ all. split.1 (
        here.1 (Each-head (IsWellFormed m) f rest all),
        later.1 (Each-tail (IsWellFormed m) f rest all),
      ),
    )

from_errors_iff : (es : List VerifyError) → (from_errors es ≡ ok) ↔ (es ≡ [])
unfolding from_errors
from_errors_iff [] = (λ _. refl, λ _. refl)
from_errors_iff (e ∷ es) = (λ h. absurd (cc), λ h. absurd (cc))

-- The verifier accepts a module exactly when in its entry function and in every nested function the
-- operand of each instruction and each handler target is in range, code and source map, and
-- upvalues and their names, are equally long, and the parameters fit into the slots.
pub verify_module_iff : (m : BytecodeModule) → (verify_module m ≡ ok) ↔ IsModule m
unfolding verify_module
verify_module_iff m =
    let split = append-eq-nil (verify_function m m.main 0) (verify_functions m 0 m.functions) in
    let main = verify_function_iff m m.main 0 in
    let nested = verify_functions_iff m 0 m.functions in
    let outcome =
      from_errors_iff (verify_function m m.main 0 ++ verify_functions m 0 m.functions) in
    (
      λ h. let (a, b) = split.0 (outcome.0 h) in (main.0 a, nested.0 b),
      λ w. outcome.1 (split.1 (main.1 w.0, nested.1 w.1)),
    )
