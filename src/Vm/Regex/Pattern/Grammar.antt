-- ===== src/Vm/Regex/Pattern/Grammar.antt =====
-- crates/js-vm/src/regex.rs: atoms, concatenations and alternatives, and the whole pattern.
use justscript.Prelude.{
  ℕ, zero, suc, Bool, true, false, not, ◌||◌, Option, none, some, [], ◌∷◌, if◌then◌else◌, ◌==◌,
  length, Text, nat_eq, list_eq,
}
use justscript.Vm.Regex.{Ast, Asts, nil, cons, RegexProgram, needs_backtrack}
use justscript.Vm.Regex.Repeat.{from_parts}
use justscript.Vm.Regex.Compile.{compile_program}
use justscript.Vm.Regex.Pattern.{
  on_char, Parser, unexpected, unexpected_end, Parsed, done, err, starved, ◌>>=◌, Rule, peek,
  next_is, bump, skip, quantify,
}
use justscript.Vm.Regex.Pattern.Escapes.{parse_escape}
use justscript.Vm.Regex.Pattern.Classes.{parse_class}
use justscript.Vm.Regex.Pattern.Groups.{parse_group}

-- An atom that begins with `c`; `inner` is the rule for what stands between parentheses.
unfoldable pub atom_of : Rule → ℕ → Rule
unfolding parse_group parse_class parse_escape
atom_of inner c p =
    if c == b'.'
    then done (Ast.dot, p)
    else if c == b'^'
    then done (Ast.start, p)
    else if c == b'$'
    then done (Ast.end, p)
    else if c == b'('
    then parse_group inner p
    else if c == b'['
    then parse_class p
    else if c == b'\\'
    then parse_escape p
    else done (Ast.char c, p)

unfoldable pub parse_atom : Rule → Rule
unfolding bump atom_of
parse_atom inner p = on_char (bump p).0 (err unexpected_end) λ c. atom_of inner c (bump p).1

unfoldable pub parse_quant : Rule → Rule
unfolding parse_atom quantify
parse_quant inner p = do (atom, p') ← parse_atom inner p; done (quantify atom p')

-- `None | Some('|') | Some(')')`
abbrev pub ends_concat : Option ℕ → Bool
ends_concat none = true
ends_concat (some c) = c == b'|' || c == b')'

-- the loop of `parse_concat`, each round of which reads an atom
unfoldable pub concat_parts : Rule → ℕ → Parser → Parsed (Asts × Parser)
unfolding peek parse_quant
concat_parts inner zero p = starved
concat_parts inner (suc rounds) p = if ends_concat (peek p) then done (nil, p) else (do
  (part, p') ← parse_quant inner p
  (parts, p'') ← concat_parts inner rounds p'
  done (cons part parts, p''))

abbrev pub rounds_of : Parser → ℕ
rounds_of p = suc (length p.chars)

unfoldable pub parse_concat : Rule → Rule
unfolding concat_parts from_parts
parse_concat inner p = do
  (parts, p') ← concat_parts inner (rounds_of p) p
  done (from_parts parts, p')

-- the loop of `parse_alt`, each round of which reads a bar
unfoldable pub more_alts : Rule → ℕ → Parser → Parsed (Asts × Parser)
unfolding peek skip parse_concat
more_alts inner zero p = starved
more_alts inner (suc rounds) p = if not (next_is b'|' p) then done (nil, p) else (do
  (a, p') ← parse_concat inner (skip p)
  (alts, p'') ← more_alts inner rounds p'
  done (cons a alts, p''))

-- The first alternative alone, or with the others.
abbrev pub alt_of : Ast → Asts → Ast
alt_of first nil = first
alt_of first alts = Ast.alt (cons first alts)

unfoldable pub alternatives : Rule → Rule
unfolding parse_concat more_alts
alternatives inner p = do
  (first, p') ← parse_concat inner p
  (alts, p'') ← more_alts inner (rounds_of p) p'
  done (alt_of first alts, p'')

-- `parse_alt`, on the depth of the parentheses.
unfoldable pub parse_alt : ℕ → Rule
unfolding alternatives
parse_alt zero p = starved
parse_alt (suc depth) p = alternatives (parse_alt depth) p

abbrev pub new_parser : Text → Parser
new_parser pattern = record { chars = pattern; pos = 0; group_count = 0; names = [] }

-- `Parser::parse`: the pattern read to its end.
abbrev pub finished : Ast × Parser → Parsed (Ast × Parser)
finished (ast, p) = on_char (peek p) (done (ast, p)) λ c. err (unexpected c p.pos)

unfoldable pub parse : Text → Parsed (Ast × Parser)
unfolding parse_alt peek
parse pattern = do
  (ast, p) ← parse_alt (suc (length pattern)) (new_parser pattern)
  finished (ast, p)

unfoldable pub contains : ℕ → Text → Bool
contains c [] = false
contains c (x ∷ xs) = x == c || contains c xs

-- `compile`, with `flags` as text
unfoldable pub compile_regex : Text → Text → Parsed RegexProgram
unfolding parse needs_backtrack compile_program contains
compile_regex pattern flags = do
  (ast, p) ← parse pattern
  let backtracks = needs_backtrack ast
  done (record {
    insns = if backtracks then [] else compile_program ast;
    ast = ast;
    num_groups = p.group_count;
    names = p.names;
    ignore_case = contains b'i' flags;
    multiline = contains b'm' flags;
    dotall = contains b's' flags;
    backtracks = backtracks;
  })
