-- ===== src/Syntax/Token.antt =====
-- crates/js-syntax/src/token.rs: tokens and their equality.
pub mod Equality
use justscript.Prelude.{
  ℕ, Bool, true, false, not, ◌&&◌, Option, none, some, ◌==◌, Text, nat_eq, list_eq,
}
use justscript.Syntax.Keyword.{Keyword}
use justscript.Syntax.Keyword.Equality.{keyword_eq}
use justscript.Syntax.Punctuator.{Punctuator}
use justscript.Syntax.Punctuator.Equality.{punctuator_eq}
use justscript.Syntax.Source.{Span}

-- `comment is_block has_newline`, `regex pattern flags`, `template raw cooked tail`.
pub data TokenKind : Type 0 where
  whitespace line_terminator eof : TokenKind
  comment : Bool → Bool → TokenKind
  ident numeric string bigint private_name : Text → TokenKind
  keyword : Keyword → TokenKind
  punctuator : Punctuator → TokenKind
  regex : Text → Text → TokenKind
  template : Text → Option Text → Bool → TokenKind
  unknown : ℕ → TokenKind

abbrev pub bool_beq : Bool → Bool → Bool
bool_beq true b = b
bool_beq false b = not b

abbrev pub cooked_beq : Option Text → Option Text → Bool
cooked_beq none none = true
cooked_beq (some a) (some b) = a == b
cooked_beq _ _ = false

-- `impl PartialEq for TokenKind`: comments are compared by `is_block` alone.
unfoldable pub token_beq : TokenKind → TokenKind → Bool
token_beq TokenKind.whitespace TokenKind.whitespace = true
token_beq TokenKind.line_terminator TokenKind.line_terminator = true
token_beq TokenKind.eof TokenKind.eof = true
token_beq (TokenKind.comment a _) (TokenKind.comment b _) = bool_beq a b
token_beq (TokenKind.ident a) (TokenKind.ident b) = a == b
token_beq (TokenKind.keyword a) (TokenKind.keyword b) = a == b
token_beq (TokenKind.punctuator a) (TokenKind.punctuator b) = a == b
token_beq (TokenKind.numeric a) (TokenKind.numeric b) = a == b
token_beq (TokenKind.string a) (TokenKind.string b) = a == b
token_beq (TokenKind.bigint a) (TokenKind.bigint b) = a == b
token_beq (TokenKind.regex p₁ f₁) (TokenKind.regex p₂ f₂) = p₁ == p₂ && f₁ == f₂
token_beq (TokenKind.template r₁ c₁ t₁) (TokenKind.template r₂ c₂ t₂) =
    r₁ == r₂ && cooked_beq c₁ c₂ && bool_beq t₁ t₂
token_beq (TokenKind.private_name a) (TokenKind.private_name b) = a == b
token_beq (TokenKind.unknown a) (TokenKind.unknown b) = a == b
token_beq _ _ = false

unfoldable pub is_trivia : TokenKind → Bool
is_trivia TokenKind.whitespace = true
is_trivia TokenKind.line_terminator = true
is_trivia (TokenKind.comment _ _) = true
is_trivia _ = false

pub record Token : Type 0 where
  pub kind : TokenKind
  pub span : Span
