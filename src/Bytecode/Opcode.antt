-- ===== src/Bytecode/Opcode.antt =====
-- crates/js-bytecode/src/opcode.rs: the opcodes, the meaning of their operand, and the opcode of
-- an operator. A 16-bit operand is a native number.
use mathlib.Core.Option.{Option}
use justscript.Prelude.{ℕ}
use justscript.Syntax.Op.{BinOp, UnaryOp}

pub data Opcode : Type 0 where
  lda_const lda_local sta_local pop dup swap lda_undefined lda_null lda_true lda_false : Opcode
  lda_function set_function_name set_class_heritage set_class_instance_initializer : Opcode
  define_class_field_key load_class_field_key activate_class_private_environment : Opcode
  deactivate_class_private_environment lda_this lda_upvalue sta_upvalue enter_with : Opcode
  leave_with add sub mul div mod_op exp eq strict_eq lt le gt ge bit_and bit_or bit_xor : Opcode
  shl shr ushr in_op logical_and logical_or nullish_coal neg pos not bit_not typeof void : Opcode
  jump jump_if_false jump_if_true jump_if_nullish return yield yield_star await throw : Opcode
  try_begin try_end finally_end get_iterator iter_next get_template_object : Opcode
  get_import_meta new_object new_array call call_direct_eval call_method : Opcode
  call_with_argument_list call_direct_eval_with_argument_list : Opcode
  call_method_with_argument_list new new_with_argument_list call_super : Opcode
  call_super_with_argument_list set_super_prop get_super_prop get_prop set_prop : Opcode
  define_data_property define_method define_getter define_setter get_private set_private : Opcode
  define_private define_private_method define_private_getter define_private_setter : Opcode
  define_private_method_template define_private_getter_template : Opcode
  define_private_setter_template private_in copy_data_properties delete_prop : Opcode
  delete_super_prop delete_global instanceof new_regex get_global typeof_global : Opcode
  set_global get_name set_name typeof_name delete_name dynamic_import nop object_keys : Opcode
  array_push array_extend : Opcode

pub data OperandKind : Type 0 where
  none constant local upvalue function jump_target argument_count handler : OperandKind
  class_field template_site : OperandKind

pub record Instruction : Type 0 where
  pub op : Opcode
  pub operand : ℕ

abbrev pub bare : Opcode → Instruction
bare op = record { op = op; operand = 0 }

unfoldable pub operand_kind : Opcode → OperandKind
operand_kind Opcode.lda_const = OperandKind.constant
operand_kind Opcode.lda_local = OperandKind.local
operand_kind Opcode.sta_local = OperandKind.local
operand_kind Opcode.lda_function = OperandKind.function
operand_kind Opcode.set_function_name = OperandKind.constant
operand_kind Opcode.load_class_field_key = OperandKind.class_field
operand_kind Opcode.lda_upvalue = OperandKind.upvalue
operand_kind Opcode.sta_upvalue = OperandKind.upvalue
operand_kind Opcode.jump = OperandKind.jump_target
operand_kind Opcode.jump_if_false = OperandKind.jump_target
operand_kind Opcode.jump_if_true = OperandKind.jump_target
operand_kind Opcode.jump_if_nullish = OperandKind.jump_target
operand_kind Opcode.try_begin = OperandKind.handler
operand_kind Opcode.get_template_object = OperandKind.template_site
operand_kind Opcode.new_array = OperandKind.argument_count
operand_kind Opcode.call = OperandKind.argument_count
operand_kind Opcode.call_direct_eval = OperandKind.argument_count
operand_kind Opcode.call_method = OperandKind.argument_count
operand_kind Opcode.new = OperandKind.argument_count
operand_kind Opcode.call_super = OperandKind.argument_count
operand_kind Opcode.get_private = OperandKind.constant
operand_kind Opcode.set_private = OperandKind.constant
operand_kind Opcode.define_private = OperandKind.constant
operand_kind Opcode.define_private_method = OperandKind.constant
operand_kind Opcode.define_private_getter = OperandKind.constant
operand_kind Opcode.define_private_setter = OperandKind.constant
operand_kind Opcode.define_private_method_template = OperandKind.constant
operand_kind Opcode.define_private_getter_template = OperandKind.constant
operand_kind Opcode.define_private_setter_template = OperandKind.constant
operand_kind Opcode.private_in = OperandKind.constant
operand_kind Opcode.delete_global = OperandKind.constant
operand_kind Opcode.new_regex = OperandKind.constant
operand_kind Opcode.get_global = OperandKind.constant
operand_kind Opcode.typeof_global = OperandKind.constant
operand_kind Opcode.set_global = OperandKind.constant
operand_kind Opcode.get_name = OperandKind.constant
operand_kind Opcode.set_name = OperandKind.constant
operand_kind Opcode.typeof_name = OperandKind.constant
operand_kind Opcode.delete_name = OperandKind.constant
operand_kind Opcode.dynamic_import = OperandKind.argument_count
operand_kind _ = OperandKind.none

unfoldable pub for_binop : BinOp → Opcode
for_binop BinOp.add = Opcode.add
for_binop BinOp.sub = Opcode.sub
for_binop BinOp.mul = Opcode.mul
for_binop BinOp.div = Opcode.div
for_binop BinOp.mod_op = Opcode.mod_op
for_binop BinOp.exp = Opcode.exp
for_binop BinOp.eq = Opcode.eq
for_binop BinOp.not_eq = Opcode.eq
for_binop BinOp.strict_eq = Opcode.strict_eq
for_binop BinOp.strict_not_eq = Opcode.strict_eq
for_binop BinOp.lt = Opcode.lt
for_binop BinOp.gt = Opcode.gt
for_binop BinOp.le = Opcode.le
for_binop BinOp.ge = Opcode.ge
for_binop BinOp.and = Opcode.logical_and
for_binop BinOp.or = Opcode.logical_or
for_binop BinOp.nullish_coal = Opcode.nullish_coal
for_binop BinOp.bit_and = Opcode.bit_and
for_binop BinOp.bit_or = Opcode.bit_or
for_binop BinOp.bit_xor = Opcode.bit_xor
for_binop BinOp.shl = Opcode.shl
for_binop BinOp.shr = Opcode.shr
for_binop BinOp.ushr = Opcode.ushr
for_binop BinOp.in_op = Opcode.in_op
for_binop BinOp.instanceof = Opcode.instanceof

unfoldable pub for_unaryop : UnaryOp → Option Opcode
for_unaryop UnaryOp.neg = Option.some Opcode.neg
for_unaryop UnaryOp.pos = Option.some Opcode.pos
for_unaryop UnaryOp.not = Option.some Opcode.not
for_unaryop UnaryOp.bit_not = Option.some Opcode.bit_not
for_unaryop UnaryOp.typeof = Option.some Opcode.typeof
for_unaryop UnaryOp.void = Option.some Opcode.void
for_unaryop UnaryOp.delete = Option.none
