-- ===== src/Bytecode/Function.antt =====
-- crates/js-bytecode/src/module.rs: compiled functions and modules, and the emitters of
-- crates/js-bytecode/src/compiler.rs that write into them. A panic on an index is `none`.
pub mod Emit
pub mod Patch
use justscript.Prelude.{
  ℕ, zero, suc, Bool, false, Option, none, some, List, [], ◌∷◌, ◌++◌, leb, if◌then◌else◌, length,
  get_elem?, get_or, set, Text, u16,
}
use justscript.Syntax.Source.{Span, dummy, is_dummy, SourceFile}
use justscript.Bytecode.Opcode.{Opcode, Instruction, bare}
use justscript.Bytecode.Local
use justscript.Bytecode.Local.{LocalTable}
use justscript.Bytecode.Constant.{ConstantPool}

pub record UpvalueSpec : Type 0 where
  pub is_local : Bool
  pub index : ℕ

pub record TemplateSite : Type 0 where
  pub cooked : List (Option Text)
  pub raw : List Text

pub record HandlerSpec : Type 0 where
  pub catch_pc : Option ℕ
  pub finally_pc : Option ℕ

pub record BytecodeFunction : Type 0 where
  pub span : Span
  pub name : Text
  pub param_count : ℕ
  pub code : List Instruction
  pub source_map : List Span
  pub locals : LocalTable
  pub upvalues : List UpvalueSpec
  pub upvalue_names : List Text
  pub is_arrow : Bool
  pub is_generator : Bool
  pub is_async : Bool
  pub handlers : List HandlerSpec
  pub template_sites : List TemplateSite

unfoldable pub new : Span → Text → ℕ → BytecodeFunction
new span name param_count = record {
  span = span;
  name = name;
  param_count = param_count;
  code = [];
  source_map = [];
  locals = Local.new param_count;
  upvalues = [];
  upvalue_names = [];
  is_arrow = false;
  is_generator = false;
  is_async = false;
  handlers = [];
  template_sites = [];
}

unfoldable pub emit_at : Instruction → Span → BytecodeFunction → BytecodeFunction
emit_at ins span f = record f { code = f.code ++ ins ∷ []; source_map = f.source_map ++ span ∷ [] }

unfoldable pub emit : Instruction → BytecodeFunction → BytecodeFunction
unfolding emit_at
emit ins f = emit_at ins dummy f

unfoldable pub emit_bare : Opcode → BytecodeFunction → BytecodeFunction
unfolding emit
emit_bare op f = emit (bare op) f

unfoldable pub emit_bare_at : Opcode → Span → BytecodeFunction → BytecodeFunction
unfolding emit_at
emit_bare_at op span f = emit_at (bare op) span f

-- The spans from `start` on, the dummy ones replaced.
unfoldable pub annotate_spans : ℕ → Span → List Span → List Span
unfolding is_dummy
annotate_spans start span [] = []
annotate_spans zero span (mapped ∷ rest) =
    (if is_dummy mapped then span else mapped) ∷ annotate_spans zero span rest
annotate_spans (suc start) span (mapped ∷ rest) = mapped ∷ annotate_spans start span rest

unfoldable pub annotate_since : ℕ → Span → BytecodeFunction → Option BytecodeFunction
unfolding annotate_spans
annotate_since start_pc span f =
    if leb start_pc (length f.source_map)
    then some (record f { source_map = annotate_spans start_pc span f.source_map })
    else none

unfoldable pub source_span : ℕ → BytecodeFunction → Span
source_span pc f = get_or f.source_map pc f.span

unfoldable pub here : BytecodeFunction → ℕ
here f = u16 (length f.code)

-- `emit_placeholder`, `emit_jump` and `patch` of the compiler.
unfoldable pub emit_placeholder : Opcode → BytecodeFunction → BytecodeFunction × ℕ
unfolding here emit
emit_placeholder op f = (emit (record { op = op; operand = 0 }) f, here f)

unfoldable pub emit_jump : Opcode → ℕ → BytecodeFunction → BytecodeFunction
unfolding emit
emit_jump op target f = emit (record { op = op; operand = target }) f

unfoldable pub patch : ℕ → ℕ → BytecodeFunction → Option BytecodeFunction
patch at target f = elim (get_elem? f.code at) [
  | none ↦ none
  | some ins ↦ some (record f { code = set f.code at (record ins { operand = target }) })
]

pub data ImportPhase : Type 0 where
  eval source defer : ImportPhase

pub record DynamicModuleRequest : Type 0 where
  pub specifier : Text
  pub phase : ImportPhase
  pub attributes : List (Text × Text)

pub record BytecodeModule : Type 0 where
  pub source : Option SourceFile
  pub constants : ConstantPool
  pub main : BytecodeFunction
  pub functions : List BytecodeFunction
  pub module_function_initializers : List (ℕ × ℕ)
  pub dynamic_import_requests : List DynamicModuleRequest
  pub is_module : Bool

unfoldable pub new_module : ConstantPool → BytecodeFunction → BytecodeModule
new_module constants main = record {
  source = none;
  constants = constants;
  main = main;
  functions = [];
  module_function_initializers = [];
  dynamic_import_requests = [];
  is_module = false;
}
