-- ===== src/Vm/Regex/Pattern/Classes.antt =====
-- crates/js-vm/src/regex.rs: character classes.
use justscript.Prelude.{
  ℕ, zero, suc, Bool, not, ◌&&◌, Option, none, some, List, [], ◌∷◌, if◌then◌else◌, ◌==◌, length,
  nat_eq, list_eq,
}
use justscript.Vm.Regex.{Ast}
use justscript.Vm.Regex.Pattern.{
  on_char, Parser, unterminated_class, bad_class_escape, Parsed, done, err, starved, ◌>>=◌, Rule,
  peek, peek2, is_char, next_is, bump, skip,
}

-- the characters of `\n`, `\t` and `\r`
abbrev escaped_char : ℕ → ℕ
escaped_char c = if c == b'n' then 10 else if c == b't' then 9 else if c == b'r' then 13 else c

unfoldable pub class_escape_char : Parser → Parsed (ℕ × Parser)
unfolding bump
class_escape_char p =
    on_char (bump p).0 (err bad_class_escape) λ c. done (escaped_char c, (bump p).1)

abbrev or_else : Option ℕ → ℕ → ℕ
or_else none d = d
or_else (some c) d = c

-- A hyphen that does not stand before the bracket begins a range.
abbrev pub is_range : Parser → Bool
is_range p = next_is b'-' p && not (is_char b']' (peek2 p))

-- The end of a range that began with an escape …
unfoldable pub end_after_escape : Parser → Parsed (ℕ × Parser)
unfolding bump skip class_escape_char
end_after_escape p =
    if next_is b'\\' p then class_escape_char (skip p) else done (or_else (bump p).0 0, (bump p).1)

-- … and one entry of a class that does.
unfoldable pub escape_entry : Parser → Parsed ((ℕ × ℕ) × Parser)
unfolding skip peek peek2 class_escape_char end_after_escape
escape_entry p = do
  (c, p') ← class_escape_char (skip p)
  if is_range p'
      then (do (end_char, p'') ← end_after_escape (skip p'); done ((c, end_char), p''))
      else done ((c, c), p')

unfoldable pub plain_entry : ℕ → Parser → (ℕ × ℕ) × Parser
unfolding skip bump peek peek2
plain_entry c p =
    let p' = skip p in
    if is_range p' then ((c, or_else (bump (skip p')).0 c), (bump (skip p')).1) else ((c, c), p')

-- the loop of `parse_class`, each round of which reads a character
unfoldable pub class_entries : ℕ → Parser → Parsed (List (ℕ × ℕ) × Parser)
unfolding peek skip escape_entry plain_entry
class_entries zero p = starved
class_entries (suc rounds) p = on_char (peek p) (err unterminated_class) λ c.
    if c == b']' then done ([], skip p) else (do
      (entry, p') ← if c == b'\\' then escape_entry p else done (plain_entry c p)
      (entries, p'') ← class_entries rounds p'
      done (entry ∷ entries, p''))

abbrev pub skip_if : ℕ → Parser → Parser
skip_if c p = if next_is c p then skip p else p

unfoldable pub parse_class : Rule
unfolding peek skip class_entries
parse_class p = do
  let opened = skip_if b'^' p
  let first = next_is b']' opened
  (entries, p') ← class_entries (suc (length p.chars)) (skip_if b']' opened)
  done (Ast.class (if first then (b']', b']') ∷ entries else entries) (next_is b'^' p), p')
