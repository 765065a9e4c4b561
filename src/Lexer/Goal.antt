-- ===== src/Lexer/Goal.antt =====
-- crates/js-lexer/src/lexer.rs: `update_regex_state`, whether a `/` behind a token begins a regex.
use justscript.Prelude.{Bool, true, false, not}
use justscript.Syntax.Keyword.{Keyword}
use justscript.Syntax.Punctuator.{Punctuator}
use justscript.Syntax.Token.{TokenKind}

-- `this`, `super`, and the literal keywords.
unfoldable pub is_value_keyword : Keyword → Bool
is_value_keyword Keyword.this = true
is_value_keyword Keyword.super = true
is_value_keyword Keyword.true = true
is_value_keyword Keyword.false = true
is_value_keyword Keyword.null = true
is_value_keyword Keyword.undefined = true
is_value_keyword _ = false

-- `)` and `]`.
unfoldable pub closes_value : Punctuator → Bool
closes_value Punctuator.r_paren = true
closes_value Punctuator.r_bracket = true
closes_value _ = false

unfoldable pub regex_allowed : TokenKind → Bool
unfolding is_value_keyword closes_value
regex_allowed (TokenKind.ident _) = false
regex_allowed (TokenKind.numeric _) = false
regex_allowed (TokenKind.string _) = false
regex_allowed (TokenKind.bigint _) = false
regex_allowed (TokenKind.regex _ _) = false
regex_allowed (TokenKind.keyword k) = is_value_keyword k
regex_allowed (TokenKind.punctuator p) = not (closes_value p)
regex_allowed (TokenKind.template _ _ tail) = not tail
regex_allowed (TokenKind.private_name _) = false
regex_allowed _ = true
