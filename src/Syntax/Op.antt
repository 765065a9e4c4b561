-- ===== src/Syntax/Op.antt =====
-- crates/js-syntax/src/ast/op.rs: the operators, and the binary operator of a punctuator.
use mathlib.Core.Option.{Option}
use justscript.Syntax.Punctuator.{Punctuator}

pub data BinOp : Type 0 where
  add sub mul div mod_op exp eq not_eq strict_eq strict_not_eq lt gt le ge and or : BinOp
  nullish_coal bit_and bit_or bit_xor shl shr ushr in_op instanceof : BinOp

pub data UnaryOp : Type 0 where
  neg pos not bit_not typeof void delete : UnaryOp

pub data AssignOp : Type 0 where
  assign add sub mul div mod_op exp bit_and bit_or bit_xor shl shr ushr and or nullish : AssignOp

unfoldable pub from_punctuator : Punctuator → Option BinOp
from_punctuator Punctuator.add = Option.some BinOp.add
from_punctuator Punctuator.sub = Option.some BinOp.sub
from_punctuator Punctuator.mul = Option.some BinOp.mul
from_punctuator Punctuator.div = Option.some BinOp.div
from_punctuator Punctuator.mod_op = Option.some BinOp.mod_op
from_punctuator Punctuator.exp = Option.some BinOp.exp
from_punctuator Punctuator.eq = Option.some BinOp.eq
from_punctuator Punctuator.not_eq = Option.some BinOp.not_eq
from_punctuator Punctuator.strict_eq = Option.some BinOp.strict_eq
from_punctuator Punctuator.strict_not_eq = Option.some BinOp.strict_not_eq
from_punctuator Punctuator.lt = Option.some BinOp.lt
from_punctuator Punctuator.gt = Option.some BinOp.gt
from_punctuator Punctuator.le = Option.some BinOp.le
from_punctuator Punctuator.ge = Option.some BinOp.ge
from_punctuator Punctuator.and = Option.some BinOp.and
from_punctuator Punctuator.or = Option.some BinOp.or
from_punctuator Punctuator.nullish_coal = Option.some BinOp.nullish_coal
from_punctuator Punctuator.bit_and = Option.some BinOp.bit_and
from_punctuator Punctuator.bit_or = Option.some BinOp.bit_or
from_punctuator Punctuator.bit_xor = Option.some BinOp.bit_xor
from_punctuator Punctuator.shl = Option.some BinOp.shl
from_punctuator Punctuator.shr = Option.some BinOp.shr
from_punctuator Punctuator.ushr = Option.some BinOp.ushr
from_punctuator _ = Option.none
