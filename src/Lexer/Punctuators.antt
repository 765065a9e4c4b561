-- ===== src/Lexer/Punctuators.antt =====
-- crates/js-lexer/src/lexer.rs: the punctuator of a spelling, and the longest one ahead of the cursor.
pub mod Munch
use justscript.Prelude.{
  ℕ, zero, suc, ◌+◌, ◌-◌, ◌*◌, ◌/◌, ◌%◌, ◌^◌, ◌<◌, not, ◌&&◌, ◌||◌, Option, none, some, List, [],
  ◌∷◌, ◌++◌, if◌then◌else◌, ◌==◌, take, Text, codes, nat_eq, list_eq,
}
use justscript.Syntax.Punctuator.{Punctuator}
use justscript.Lexer.Cursor.{Cursor, peek_ahead4, bump}

-- The arms of the `match`, in order.
abbrev pub spellings : List (Text × Punctuator)
spellings =
    (codes ">>>=", Punctuator.ushr_assign)
    ∷ (codes "===", Punctuator.strict_eq)
    ∷ (codes "!==", Punctuator.strict_not_eq)
    ∷ (codes ">>>", Punctuator.ushr)
    ∷ (codes "**=", Punctuator.exp_assign)
    ∷ (codes "<<=", Punctuator.shl_assign)
    ∷ (codes ">>=", Punctuator.shr_assign)
    ∷ (codes "...", Punctuator.spread)
    ∷ (codes "&&=", Punctuator.and_assign)
    ∷ (codes "||=", Punctuator.or_assign)
    ∷ (codes "??=", Punctuator.nullish_assign)
    ∷ (codes "=>", Punctuator.arrow)
    ∷ (codes "==", Punctuator.eq)
    ∷ (codes "!=", Punctuator.not_eq)
    ∷ (codes "<=", Punctuator.le)
    ∷ (codes ">=", Punctuator.ge)
    ∷ (codes "&&", Punctuator.and)
    ∷ (codes "||", Punctuator.or)
    ∷ (codes "??", Punctuator.nullish_coal)
    ∷ (codes "?.", Punctuator.opt_chain)
    ∷ (codes "**", Punctuator.exp)
    ∷ (codes "<<", Punctuator.shl)
    ∷ (codes ">>", Punctuator.shr)
    ∷ (codes "+=", Punctuator.add_assign)
    ∷ (codes "-=", Punctuator.sub_assign)
    ∷ (codes "*=", Punctuator.mul_assign)
    ∷ (codes "/=", Punctuator.div_assign)
    ∷ (codes "%=", Punctuator.mod_assign)
    ∷ (codes "&=", Punctuator.bit_and_assign)
    ∷ (codes "|=", Punctuator.bit_or_assign)
    ∷ (codes "^=", Punctuator.bit_xor_assign)
    ∷ (codes "++", Punctuator.inc)
    ∷ (codes "--", Punctuator.dec)
    ∷ (codes "{", Punctuator.l_brace)
    ∷ (codes "}", Punctuator.r_brace)
    ∷ (codes "(", Punctuator.l_paren)
    ∷ (codes ")", Punctuator.r_paren)
    ∷ (codes "[", Punctuator.l_bracket)
    ∷ (codes "]", Punctuator.r_bracket)
    ∷ (codes ".", Punctuator.dot)
    ∷ (codes ";", Punctuator.semicolon)
    ∷ (codes ",", Punctuator.comma)
    ∷ (codes ":", Punctuator.colon)
    ∷ (codes "?", Punctuator.question_mark)
    ∷ (codes "!", Punctuator.not)
    ∷ (codes "~", Punctuator.bit_not)
    ∷ (codes "+", Punctuator.add)
    ∷ (codes "-", Punctuator.sub)
    ∷ (codes "*", Punctuator.mul)
    ∷ (codes "/", Punctuator.div)
    ∷ (codes "%", Punctuator.mod_op)
    ∷ (codes "&", Punctuator.bit_and)
    ∷ (codes "|", Punctuator.bit_or)
    ∷ (codes "^", Punctuator.bit_xor)
    ∷ (codes "<", Punctuator.lt)
    ∷ (codes ">", Punctuator.gt)
    ∷ (codes "=", Punctuator.assign)
    ∷ []

pub find_punctuator : Text → List (Text × Punctuator) → Option Punctuator
find_punctuator s [] = none
find_punctuator s ((t, p) ∷ rest) = if t == s then some p else find_punctuator s rest

unfoldable pub match_punctuator : Text → Option Punctuator
unfolding find_punctuator
match_punctuator s = find_punctuator s spellings

-- `for _ in 0..len`
unfoldable pub bumps : ℕ → Cursor → Cursor
bumps zero c = c
bumps (suc n) c = bumps n (bump c).1

-- The rounds of `for len in (1..=4).rev()` from `len` down.
unfoldable pub eat_longest : ℕ → Cursor → Option Punctuator × Cursor
eat_longest zero c = (none, c)
eat_longest (suc n) c =
    let shorter = eat_longest n c in
    elim (match_punctuator (take (suc n) (peek_ahead4 c))) [
      | some p ↦ (some p, bumps (suc n) c)
      | none ↦ shorter
    ]

unfoldable pub eat_punctuator : Cursor → Option Punctuator × Cursor
unfolding eat_longest match_punctuator bumps
eat_punctuator c = eat_longest 4 c
