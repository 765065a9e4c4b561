-- ===== src/Syntax/Token/Equality.antt =====
-- crates/js-syntax/src/token.rs: what the equality of token kinds tells apart.
use justscript.Prelude.{
  ◌≡◌, ◌↔◌, Bool, true, false, Option, none, some, arith, list_beq_iff, Text, nat_eq, list_eq,
}
use justscript.Syntax.Keyword.Equality.{keyword_eq}
use justscript.Syntax.Punctuator.Equality.{punctuator_eq}
use justscript.Syntax.Token.{TokenKind, bool_beq, cooked_beq, token_beq}

-- A comment without its newline flag; every other kind as it is.
abbrev pub erase : TokenKind → TokenKind
erase (TokenKind.comment b _) = TokenKind.comment b false
erase k = k

bool_beq_iff : (a b : Bool) → (bool_beq a b ≡ true) ↔ (a ≡ b)
bool_beq_iff a b = ground arith

cooked_beq_iff : (a b : Option Text) → (cooked_beq a b ≡ true) ↔ (a ≡ b)
cooked_beq_iff none none = ground arith
cooked_beq_iff (some a) (some b) = ground (arith, list_beq_iff a b)
cooked_beq_iff _ _ = ground arith

-- Two kinds are equal for the parser exactly when they agree up to the newline flag of comments.
pub token_beq_iff : (a b : TokenKind) → (token_beq a b ≡ true) ↔ (erase a ≡ erase b)
unfolding token_beq
token_beq_iff (TokenKind.comment a _) (TokenKind.comment b _) = ground (arith, bool_beq_iff a b)
token_beq_iff (TokenKind.ident a) (TokenKind.ident b) = ground (arith, list_beq_iff a b)
token_beq_iff (TokenKind.numeric a) (TokenKind.numeric b) = ground (arith, list_beq_iff a b)
token_beq_iff (TokenKind.string a) (TokenKind.string b) = ground (arith, list_beq_iff a b)
token_beq_iff (TokenKind.bigint a) (TokenKind.bigint b) = ground (arith, list_beq_iff a b)
token_beq_iff (TokenKind.private_name a) (TokenKind.private_name b) =
    ground (arith, list_beq_iff a b)
token_beq_iff (TokenKind.keyword a) (TokenKind.keyword b) = ground (arith, keyword_eq.is_eq_iff a b)
token_beq_iff (TokenKind.punctuator a) (TokenKind.punctuator b) =
    ground (arith, punctuator_eq.is_eq_iff a b)
token_beq_iff (TokenKind.regex a b) (TokenKind.regex c d) =
    ground (arith, list_beq_iff a c, list_beq_iff b d)
token_beq_iff (TokenKind.template a b c) (TokenKind.template d e f) =
    ground (arith, list_beq_iff a d, cooked_beq_iff b e, bool_beq_iff c f)
token_beq_iff _ _ = ground arith
