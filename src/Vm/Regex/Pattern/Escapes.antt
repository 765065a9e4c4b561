-- ===== src/Vm/Regex/Pattern/Escapes.antt =====
-- crates/js-vm/src/regex.rs: escapes and backreferences.
use justscript.Prelude.{
  ℕ, true, false, not, ◌&&◌, Option, none, some, List, [], ◌∷◌, if◌then◌else◌, ◌==◌, drop, Text,
  nat_eq, list_eq,
}
use justscript.Vm.Regex.{Ast}
use justscript.Vm.Regex.Pattern.{
  on_char, Parser, trailing_backslash, unknown_group_name, unterminated_backref_name,
  expected_backref_name, Parsed, done, err, panic, ◌>>=◌, Rule, next_is, bump, skip, skip_while,
  skip_digits, is_ascii_digit, text_between, parse_usize,
}
use justscript.Vm.Regex.Pattern.Groups.{read_group_name}

abbrev digit_ranges : List (ℕ × ℕ)
digit_ranges = (b'0', b'9') ∷ []

abbrev word_ranges : List (ℕ × ℕ)
word_ranges = (b'a', b'z') ∷ (b'A', b'Z') ∷ (b'0', b'9') ∷ (b'_', b'_') ∷ []

abbrev space_ranges : List (ℕ × ℕ)
space_ranges = (32, 32) ∷ (9, 9) ∷ (10, 10) ∷ (13, 13) ∷ (11, 11) ∷ (12, 12) ∷ []

-- `\S` leaves out the last two.
abbrev not_space_ranges : List (ℕ × ℕ)
not_space_ranges = (32, 32) ∷ (9, 9) ∷ (10, 10) ∷ (13, 13) ∷ []

-- The escapes of one character: `none` is every other character.
unfoldable pub simple_escape : ℕ → Option Ast
simple_escape c =
    if c == b'd'
    then some (Ast.class digit_ranges false)
    else if c == b'D'
    then some (Ast.class digit_ranges true)
    else if c == b'w'
    then some (Ast.class word_ranges false)
    else if c == b'W'
    then some (Ast.class word_ranges true)
    else if c == b's'
    then some (Ast.class space_ranges false)
    else if c == b'S'
    then some (Ast.class not_space_ranges true)
    else if c == b'b'
    then some Ast.word_boundary
    else if c == b'B'
    then some Ast.not_word_boundary
    else if c == b'n'
    then some (Ast.char 10)
    else if c == b't'
    then some (Ast.char 9)
    else if c == b'r'
    then some (Ast.char 13)
    else none

abbrev quoted_name : Parser → Parser → Parsed (Text × Parser)
quoted_name p ended =
    if not (next_is 39 ended)
    then err unterminated_backref_name
    else done (text_between p ended, skip ended)

unfoldable pub read_backref_name : Parser → Parsed (Text × Parser)
unfolding skip skip_while read_group_name
read_backref_name p =
    if next_is b'<' p
    then read_group_name (skip p)
    else if next_is 39 p
    then (let q = skip p in quoted_name q (skip_while (λ c. not (c == 39)) (drop q.pos q.chars) q))
    else err expected_backref_name

unfoldable pub lookup_name : Text → List (Text × ℕ) → Option ℕ
lookup_name name [] = none
lookup_name name ((n, num) ∷ names) = if n == name then some num else lookup_name name names

abbrev pub named_backref : Parser → Text → Parsed (Ast × Parser)
named_backref p name =
    on_char (lookup_name name p.names) (err (unknown_group_name name))
      λ num. done (Ast.backref num, p)

-- `digits.parse().unwrap()`
abbrev pub numeric_backref : Parser → Option ℕ → Parsed (Ast × Parser)
numeric_backref p none = panic
numeric_backref p (some num) = done (Ast.backref num, p)

abbrev pub simple_or : Option Ast → Parser → Parsed (Ast × Parser) → Parsed (Ast × Parser)
simple_or none p other = other
simple_or (some a) p other = done (a, p)

unfoldable pub escape_of : ℕ → Parser → Parser → Parsed (Ast × Parser)
unfolding simple_escape read_backref_name lookup_name skip_while parse_usize
escape_of c before p = simple_or (simple_escape c) p (
    if c == b'k'
    then (do (name, p') ← read_backref_name p; named_backref p' name)
    else if is_ascii_digit c && not (c == b'0')
    then numeric_backref (skip_digits p) (parse_usize (text_between before (skip_digits p)))
    else done (Ast.char c, p))

unfoldable pub parse_escape : Rule
unfolding bump escape_of
parse_escape p = on_char (bump p).0 (err trailing_backslash) λ c. escape_of c p (bump p).1
