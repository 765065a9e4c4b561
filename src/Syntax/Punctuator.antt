-- ===== src/Syntax/Punctuator.antt =====
-- crates/js-syntax/src/punctuator.rs: the punctuators and their spelling.
pub mod Equality
use justscript.Prelude.{
  ℕ, ◌+◌, ◌-◌, ◌*◌, ◌/◌, ◌%◌, ◌^◌, ◌<◌, ◌&&◌, ◌||◌, ◌++◌, ◌==◌, Text, codes, nat_eq, list_eq,
}

pub data Punctuator : Type 0 where
  l_brace r_brace l_paren r_paren l_bracket r_bracket dot spread semicolon comma : Punctuator
  colon arrow question_mark nullish_coal opt_chain assign add_assign sub_assign : Punctuator
  mul_assign div_assign mod_assign exp_assign bit_and_assign bit_or_assign : Punctuator
  bit_xor_assign shl_assign shr_assign ushr_assign and_assign or_assign : Punctuator
  nullish_assign eq not_eq strict_eq strict_not_eq lt gt le ge add sub mul div : Punctuator
  mod_op exp inc dec and or not bit_and bit_or bit_xor bit_not shl shr ushr at : Punctuator

unfoldable pub as_str : Punctuator → Text
as_str Punctuator.l_brace = codes "{"
as_str Punctuator.r_brace = codes "}"
as_str Punctuator.l_paren = codes "("
as_str Punctuator.r_paren = codes ")"
as_str Punctuator.l_bracket = codes "["
as_str Punctuator.r_bracket = codes "]"
as_str Punctuator.dot = codes "."
as_str Punctuator.spread = codes "..."
as_str Punctuator.semicolon = codes ";"
as_str Punctuator.comma = codes ","
as_str Punctuator.colon = codes ":"
as_str Punctuator.arrow = codes "=>"
as_str Punctuator.question_mark = codes "?"
as_str Punctuator.nullish_coal = codes "??"
as_str Punctuator.opt_chain = codes "?."
as_str Punctuator.assign = codes "="
as_str Punctuator.add_assign = codes "+="
as_str Punctuator.sub_assign = codes "-="
as_str Punctuator.mul_assign = codes "*="
as_str Punctuator.div_assign = codes "/="
as_str Punctuator.mod_assign = codes "%="
as_str Punctuator.exp_assign = codes "**="
as_str Punctuator.bit_and_assign = codes "&="
as_str Punctuator.bit_or_assign = codes "|="
as_str Punctuator.bit_xor_assign = codes "^="
as_str Punctuator.shl_assign = codes "<<="
as_str Punctuator.shr_assign = codes ">>="
as_str Punctuator.ushr_assign = codes ">>>="
as_str Punctuator.and_assign = codes "&&="
as_str Punctuator.or_assign = codes "||="
as_str Punctuator.nullish_assign = codes "??="
as_str Punctuator.eq = codes "=="
as_str Punctuator.not_eq = codes "!="
as_str Punctuator.strict_eq = codes "==="
as_str Punctuator.strict_not_eq = codes "!=="
as_str Punctuator.lt = codes "<"
as_str Punctuator.gt = codes ">"
as_str Punctuator.le = codes "<="
as_str Punctuator.ge = codes ">="
as_str Punctuator.add = codes "+"
as_str Punctuator.sub = codes "-"
as_str Punctuator.mul = codes "*"
as_str Punctuator.div = codes "/"
as_str Punctuator.mod_op = codes "%"
as_str Punctuator.exp = codes "**"
as_str Punctuator.inc = codes "++"
as_str Punctuator.dec = codes "--"
as_str Punctuator.and = codes "&&"
as_str Punctuator.or = codes "||"
as_str Punctuator.not = codes "!"
as_str Punctuator.bit_and = codes "&"
as_str Punctuator.bit_or = codes "|"
as_str Punctuator.bit_xor = codes "^"
as_str Punctuator.bit_not = codes "~"
as_str Punctuator.shl = codes "<<"
as_str Punctuator.shr = codes ">>"
as_str Punctuator.ushr = codes ">>>"
as_str Punctuator.at = codes "@"

-- The derived `PartialEq` of an enum without fields compares the discriminants.
unfoldable pub discriminant : Punctuator → ℕ
discriminant Punctuator.l_brace = 0
discriminant Punctuator.r_brace = 1
discriminant Punctuator.l_paren = 2
discriminant Punctuator.r_paren = 3
discriminant Punctuator.l_bracket = 4
discriminant Punctuator.r_bracket = 5
discriminant Punctuator.dot = 6
discriminant Punctuator.spread = 7
discriminant Punctuator.semicolon = 8
discriminant Punctuator.comma = 9
discriminant Punctuator.colon = 10
discriminant Punctuator.arrow = 11
discriminant Punctuator.question_mark = 12
discriminant Punctuator.nullish_coal = 13
discriminant Punctuator.opt_chain = 14
discriminant Punctuator.assign = 15
discriminant Punctuator.add_assign = 16
discriminant Punctuator.sub_assign = 17
discriminant Punctuator.mul_assign = 18
discriminant Punctuator.div_assign = 19
discriminant Punctuator.mod_assign = 20
discriminant Punctuator.exp_assign = 21
discriminant Punctuator.bit_and_assign = 22
discriminant Punctuator.bit_or_assign = 23
discriminant Punctuator.bit_xor_assign = 24
discriminant Punctuator.shl_assign = 25
discriminant Punctuator.shr_assign = 26
discriminant Punctuator.ushr_assign = 27
discriminant Punctuator.and_assign = 28
discriminant Punctuator.or_assign = 29
discriminant Punctuator.nullish_assign = 30
discriminant Punctuator.eq = 31
discriminant Punctuator.not_eq = 32
discriminant Punctuator.strict_eq = 33
discriminant Punctuator.strict_not_eq = 34
discriminant Punctuator.lt = 35
discriminant Punctuator.gt = 36
discriminant Punctuator.le = 37
discriminant Punctuator.ge = 38
discriminant Punctuator.add = 39
discriminant Punctuator.sub = 40
discriminant Punctuator.mul = 41
discriminant Punctuator.div = 42
discriminant Punctuator.mod_op = 43
discriminant Punctuator.exp = 44
discriminant Punctuator.inc = 45
discriminant Punctuator.dec = 46
discriminant Punctuator.and = 47
discriminant Punctuator.or = 48
discriminant Punctuator.not = 49
discriminant Punctuator.bit_and = 50
discriminant Punctuator.bit_or = 51
discriminant Punctuator.bit_xor = 52
discriminant Punctuator.bit_not = 53
discriminant Punctuator.shl = 54
discriminant Punctuator.shr = 55
discriminant Punctuator.ushr = 56
discriminant Punctuator.at = 57
