-- ===== src/Lexer/Tests.antt =====
-- Runs of crates/js-lexer on small texts.
use justscript.Prelude.{
  ℕ, ◌≡◌, refl, ◌↔◌, Bool, true, false, none, some, [], ◌∷◌, arith, ◌==◌, Text, codes, nat_eq,
  list_eq,
}
use justscript.Syntax.Keyword.{Keyword}
use justscript.Syntax.Punctuator.{Punctuator, as_str}
use justscript.Syntax.Token.{TokenKind}
use justscript.Lexer.Cursor
use justscript.Lexer.Numeric
use justscript.Lexer.Numeric.{is_digit, separators_ok, validate_numeric_literal}
use justscript.Lexer.Numeric.Separators.{Flanked, separators_ok_iff}
use justscript.Runtime.BigInt.{to_digit}
use justscript.Lexer.Cursor.{Cursor, new_at, suffix_at, bump, is_eof, eof_char, eat_while, len_utf8}
use justscript.Lexer.Cursor.View.{IsBefore, drop_while, new-IsBefore, eat_while-IsBefore}
use justscript.Lexer.Punctuators.{match_punctuator, eat_punctuator}
use justscript.Lexer.Punctuators.Munch.{Munches, match_punctuator-as_str, eat_punctuator-Munches}
use justscript.Lexer.Goal.{regex_allowed}

abbrev shift : Text
shift = codes ">>>=x"

abbrev cursor : Cursor
cursor = Cursor.new 0 shift

eat_punctuator-shift : (eat_punctuator cursor).0 ≡ some Punctuator.ushr_assign
unfolding eat_punctuator Cursor.new Cursor.peek_ahead4
eat_punctuator-shift = refl

eat_punctuator-Munches_example : Munches 4 shift cursor (eat_punctuator cursor)
eat_punctuator-Munches_example = eat_punctuator-Munches shift cursor (new-IsBefore 0 shift)

match_punctuator-as_str_example : match_punctuator (as_str Punctuator.arrow) ≡ some Punctuator.arrow
match_punctuator-as_str_example = match_punctuator-as_str Punctuator.arrow (λ e. absurd (cc))

arrow-matched : match_punctuator (codes "=>") ≡ some Punctuator.arrow
unfolding match_punctuator
arrow-matched = refl

-- A text with a character of two bytes.
abbrev accent : Text
accent = 233 ∷ 97 ∷ []

accent-suffix : suffix_at accent 2 ≡ some (97 ∷ [])
unfolding suffix_at
accent-suffix = refl

accent-inside : suffix_at accent 1 ≡ none
unfolding suffix_at
accent-inside = refl

abbrev is_greater : ℕ → Bool
is_greater c = c == 62

eat_while-IsBefore_example : IsBefore (drop_while is_greater shift) (eat_while 5 is_greater cursor)
eat_while-IsBefore_example =
    eat_while-IsBefore 5 is_greater shift cursor (omega arith) (new-IsBefore 0 shift)

-- Behind `return` a `/` is taken for a division, behind `this` for the start of a regex.
regex_allowed-return : regex_allowed (TokenKind.keyword Keyword.return) ≡ false
unfolding regex_allowed
regex_allowed-return = refl

regex_allowed-this : regex_allowed (TokenKind.keyword Keyword.this) ≡ true
unfolding regex_allowed
regex_allowed-this = refl

-- A separator at the end of a number, and one between digits.
separators_ok_iff_example :
    (separators_ok (is_digit 10) (codes "1_000_") ≡ true)
    ↔ Flanked (is_digit 10) false (codes "1_000_")
separators_ok_iff_example = separators_ok_iff (is_digit 10) (codes "1_000_")

validate-trailing : validate_numeric_literal (codes "1_") ≡ Numeric.err Numeric.bad_separator
unfolding validate_numeric_literal to_digit
validate-trailing = refl

validate-exponent : validate_numeric_literal (codes "1.5e1_0") ≡ Numeric.ok
unfolding validate_numeric_literal to_digit
validate-exponent = refl

validate-fractional :
    validate_numeric_literal (codes "1e0n") ≡ Numeric.err Numeric.big_int_fractional
unfolding validate_numeric_literal
validate-fractional = refl

validate-hex : validate_numeric_literal (codes "0xDEAD_BEEFn") ≡ Numeric.ok
unfolding validate_numeric_literal to_digit
validate-hex = refl

validate-leading_zero : validate_numeric_literal (codes "08_0") ≡ Numeric.err Numeric.bad_separator
unfolding validate_numeric_literal
validate-leading_zero = refl
