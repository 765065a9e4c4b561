-- ===== src/Bytecode/Tests.antt =====
-- Runs of crates/js-bytecode on small functions, pools and tables.
use justscript.Prelude.{
  ℕ, ◌%◌, ◌^◌, ◌≤◌, ◌<◌, ◌≡◌, refl, ◌≢◌, ◌↔◌, false, some, [], ◌∷◌, ◌++◌, arith, length, get_elem?,
  replicate, length-replicate, lookup, Text, codes, nat_eq, list_eq,
}
use justscript.Syntax.Source.{Span, dummy}
use justscript.Runtime.BigInt.{from_literal}
use justscript.Bytecode.Opcode.{Opcode, Instruction, bare, for_binop}
use justscript.Bytecode.Local
use justscript.Bytecode.Local.{LocalTable, intern, bind_parameter, slot_count}
use justscript.Bytecode.Local.Slots.{IsTable, new-IsTable, intern-IsTable}
use justscript.Bytecode.Constant
use justscript.Bytecode.Constant.{
  ConstantValue, ConstantPool, string, number, bigint, len, intern_str, intern_num, intern_int,
  intern_bigint,
}
use justscript.Bytecode.Constant.Interning.{
  Extends, IsPool, new-IsPool, intern_str_lem, intern_str_wraps,
}
use justscript.Bytecode.Function.{
  BytecodeFunction, BytecodeModule, new_module, emit_placeholder, annotate_since, source_span,
  patch,
}
use justscript.Bytecode.Function.Emit.{IsAligned, annotated, annotate_since_lem}
use justscript.Bytecode.Function.Patch.{patch-emit_placeholder, patch-emit_placeholder_wraps}
use justscript.Syntax.Punctuator.{Punctuator}
use justscript.Syntax.Op.{BinOp, AssignOp}
use justscript.Bytecode.Operators.{emit_binop, is_logical}
use justscript.Bytecode.Operators.Emitted.{negation, emit_binop-for_binop}
use justscript.Parser.Operators.{assign_op}
use justscript.Bytecode.Operators.Spelling.{IsApplied, emit_binop-compound_to_binop}
use justscript.Bytecode.Verify.{verify_module, ok}
use justscript.Bytecode.Verify.Spec.{IsModule}
use justscript.Bytecode.Verify.Sound.{verify_module_iff}

abbrev x : Text
x = codes "x"

abbrev y : Text
y = codes "y"

abbrev instruction : Opcode → ℕ → Instruction
instruction op operand = record { op = op; operand = operand }

abbrev empty : BytecodeFunction
empty = record {
  span = dummy;
  name = x;
  param_count = 1;
  code = [];
  source_map = [];
  locals = Local.new 1;
  upvalues = [];
  upvalue_names = [];
  is_arrow = false;
  is_generator = false;
  is_async = false;
  handlers = [];
  template_sites = [];
}

-- One instruction with no span.
abbrev body : BytecodeFunction
body = record empty { code = instruction Opcode.lda_local 0 ∷ []; source_map = dummy ∷ [] }

abbrev span : Span
span = record { start = 3; end = 5 }

abbrev program : BytecodeModule
program = new_module Constant.new body

verify_module-program : verify_module program ≡ ok
unfolding verify_module Local.new new_module
verify_module-program = refl

verify_module_iff_example : (verify_module program ≡ ok) ↔ IsModule program
verify_module_iff_example = verify_module_iff program

annotate_since_lem_example :
    (g : BytecodeFunction) × (annotate_since 0 span body ≡ some g)
    × (g.code ≡ body.code)
    × IsAligned g
    × ((pc : ℕ)
        → pc < length body.code
        → source_span pc g ≡ annotated 0 span pc (source_span pc body))
annotate_since_lem_example = annotate_since_lem 0 span body refl (omega arith)

patch-emit_placeholder_example :
    (g : BytecodeFunction) × (patch
        (emit_placeholder Opcode.jump body).1
        9
        (emit_placeholder Opcode.jump body).0
      ≡ some g)
    × (g.code ≡ body.code ++ instruction Opcode.jump 9 ∷ [])
patch-emit_placeholder_example = patch-emit_placeholder Opcode.jump 9 body (omega arith)

-- As many instructions as a 16-bit target can tell apart.
abbrev full_body : BytecodeFunction
full_body = record empty { code = replicate (2 ^ 16) (instruction Opcode.pop 0) }

replicate-le {ℓ} : {A : Type ℓ} (n : ℕ) (a : A) → n ≤ length (replicate n a)
replicate-le n a = rw (length-replicate n a) (omega arith)

patch-emit_placeholder_wraps_example :
    (g : BytecodeFunction) × (patch
        (emit_placeholder Opcode.jump full_body).1
        9
        (emit_placeholder Opcode.jump full_body).0
      ≡ some g)
    × (get_elem? g.code (length full_body.code) ≡ some (instruction Opcode.jump 0))
patch-emit_placeholder_wraps_example =
    patch-emit_placeholder_wraps Opcode.jump 9 full_body
      (replicate-le (2 ^ 16) (instruction Opcode.pop 0))

-- A pool that holds one string.
abbrev pool : ConstantPool
pool = (intern_str x Constant.new).0

pool-IsPool : IsPool (λ n. n) pool
pool-IsPool = (intern_str_lem (λ n. n) Constant.new (omega arith) (new-IsPool (λ n. n)) x).2

pool-room : len pool < 2 ^ 16
unfolding intern_str lookup
pool-room = omega arith

intern_str_lem_example :
    (Constant.get (intern_str y pool).1 (intern_str y pool).0 ≡ some (string y))
    × Extends pool (intern_str y pool).0
    × IsPool (λ n. n) (intern_str y pool).0
intern_str_lem_example = intern_str_lem (λ n. n) pool pool-room pool-IsPool y

seven : from_literal (codes "0x7n") ≡ some (codes "7")
unfolding from_literal
seven = refl

-- As many constants as an index can tell apart.
abbrev full_pool : ConstantPool
full_pool = record {
  items = replicate (2 ^ 16) (number 0);
  by_str = [];
  by_num = [];
  by_bigint = [];
}

intern_str_wraps_example :
    Constant.get (intern_str x full_pool).1 (intern_str x full_pool).0
    ≡ Constant.get (len full_pool % 2 ^ 16) full_pool
unfolding lookup
intern_str_wraps_example = intern_str_wraps x full_pool refl (replicate-le (2 ^ 16) (number 0))

abbrev table : LocalTable
table = Local.new 1

intern-IsTable_example :
    IsTable (intern x table).0
    × ((intern x table).1 < slot_count (intern x table).0)
    × (slot_count table ≤ slot_count (intern x table).0)
unfolding Local.new
intern-IsTable_example = intern-IsTable x table (omega arith) (new-IsTable 1)

ushr_assign-ushr : assign_op Punctuator.ushr_assign ≡ some AssignOp.ushr
unfolding assign_op
ushr_assign-ushr = refl

ushr-not_logical : is_logical AssignOp.ushr ≡ false
unfolding is_logical
ushr-not_logical = refl

ushr-not_assign : AssignOp.ushr ≢ AssignOp.assign
ushr-not_assign = λ e. absurd (cc)

emit_binop-compound_to_binop_example :
    (q : Punctuator) × (b : BinOp) × IsApplied AssignOp.ushr body Punctuator.ushr_assign q b
emit_binop-compound_to_binop_example =
    emit_binop-compound_to_binop Punctuator.ushr_assign AssignOp.ushr body ushr_assign-ushr
      ushr-not_logical ushr-not_assign

emit_binop-for_binop_example :
    (emit_binop BinOp.not_eq body).code
    ≡ body.code ++ bare (for_binop BinOp.not_eq) ∷ negation BinOp.not_eq
emit_binop-for_binop_example = emit_binop-for_binop BinOp.not_eq body
