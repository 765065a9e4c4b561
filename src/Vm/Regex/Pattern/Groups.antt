-- ===== src/Vm/Regex/Pattern/Groups.antt =====
-- crates/js-vm/src/regex.rs: groups and their names.
use justscript.Prelude.{
  ◌+◌, true, false, not, ◌&&◌, ◌||◌, [], ◌∷◌, ◌++◌, if◌then◌else◌, ◌==◌, drop, Text, nat_eq,
  list_eq,
}
use justscript.Vm.Regex.{Ast}
use justscript.Vm.Regex.Pattern.{
  Parser, missing_close, bad_group_prefix, bad_group_name, unterminated_group_name,
  empty_group_name, Parsed, done, err, ◌>>=◌, Rule, peek2, is_char, next_is, skip, text_between,
}

unfoldable pub expect_close : Parser → Parsed Parser
unfolding skip
expect_close p = if next_is b')' p then done (skip p) else err missing_close

-- the loop of `read_group_name` over the characters that are left
unfoldable pub scan_name : Text → Parser → Parsed Parser
unfolding skip
scan_name [] p = done p
scan_name (c ∷ cs) p =
    let rest = scan_name cs (skip p) in
    if c == b'>' then done p else if c == b')' || c == b'(' then err bad_group_name else rest

abbrev name_between : Parser → Parser → Parsed (Text × Parser)
name_between p ended =
    if not (next_is b'>' ended)
    then err unterminated_group_name
    else if text_between p ended == []
    then err empty_group_name
    else done (text_between p ended, skip ended)

unfoldable pub read_group_name : Parser → Parsed (Text × Parser)
unfolding scan_name skip
read_group_name p = do ended ← scan_name (drop p.pos p.chars) p; name_between p ended

-- A group's inside up to its parenthesis, and what is built of it.
unfoldable pub closed : Rule → (Ast → Ast) → Rule
unfolding expect_close
closed inner build p = do (a, p') ← inner p; p'' ← expect_close p'; done (build a, p'')

unfoldable pub numbered_group : Rule → Rule
unfolding closed
numbered_group inner p =
    let num = p.group_count + 1 in
    closed inner (λ a. Ast.group a num) (record p { group_count = num })

abbrev pub add_name : Text → Parser → Parser
add_name name p =
    let num = p.group_count + 1 in
    record p { group_count = num; names = p.names ++ (name, num) ∷ [] }

unfoldable pub named_group : Rule → Rule
unfolding read_group_name closed
named_group inner p = do
  (name, p') ← read_group_name p
  closed inner (λ a. Ast.group a (p'.group_count + 1)) (add_name name p')

-- `parse_group` after `(?`
unfoldable pub prefixed_group : Rule → Rule
unfolding skip peek2 closed named_group
prefixed_group inner p =
    if next_is b':' p
    then closed inner (λ a. a) (skip p)
    else if next_is b'=' p
    then closed inner (λ a. Ast.look a true true) (skip p)
    else if next_is b'!' p
    then closed inner (λ a. Ast.look a true false) (skip p)
    else if next_is b'<' p && is_char b'=' (peek2 p)
    then closed inner (λ a. Ast.look a false true) (skip (skip p))
    else if next_is b'<' p && is_char b'!' (peek2 p)
    then closed inner (λ a. Ast.look a false false) (skip (skip p))
    else if next_is b'<' p
    then named_group inner (skip p)
    else if next_is b'P' p && is_char b'<' (peek2 p)
    then named_group inner (skip (skip p))
    else err bad_group_prefix

unfoldable pub parse_group : Rule → Rule
unfolding skip prefixed_group numbered_group
parse_group inner p =
    if next_is b'?' p then prefixed_group inner (skip p) else numbered_group inner p
