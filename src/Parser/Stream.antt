-- ===== src/Parser/Stream.antt =====
-- crates/js-parser/src/token_stream.rs: the tokens without trivia, the position and the stack of function
-- contexts, its top first. The tokens that the lexer yields are an argument.
pub mod Newlines
pub mod Position
pub mod Relex
pub mod Contexts
use justscript.Prelude.{
  ℕ, ◌+◌, ◌-◌, min, Bool, true, false, ◌&&◌, ◌||◌, Option, none, some, List, [], ◌∷◌, ◌++◌, ltb,
  if◌then◌else◌, length, get_elem?, take,
}
use justscript.Syntax.Source.{Span, dummy}
use justscript.Syntax.Keyword.Equality.{keyword_eq}
use justscript.Syntax.Token.{TokenKind, Token, is_trivia, token_beq}

pub record Slot : Type 0 where
  pub token : Token
  pub preceded_by_newline : Bool

pub record FnCtx : Type 0 where
  pub is_async : Bool
  pub is_generator : Bool
  pub is_strict : Bool

abbrev pub default_ctx : FnCtx
default_ctx = record { is_async = false; is_generator = false; is_strict = false }

pub record ParserTokenStream : Type 0 where
  pub tokens : List Slot
  pub pos : ℕ
  pub ctx_stack : List FnCtx

-- Trivia that counts as a line terminator: a block comment does if it holds one.
unfoldable pub is_newline : TokenKind → Bool
is_newline TokenKind.line_terminator = true
is_newline (TokenKind.comment is_block has_newline) = is_block && has_newline
is_newline _ = false

-- The loop over the lexer's tokens: the slots, and the newline that is still pending behind them.
unfoldable pub slots : Bool → List Token → List Slot × Bool
unfolding is_trivia is_newline
slots pending [] = ([], pending)
slots pending (tok ∷ toks) =
    let skip = is_trivia tok.kind in
    let (rest, left) = slots (if skip then pending || is_newline tok.kind else false) toks in
    ((if skip then rest else record { token = tok; preceded_by_newline = pending } ∷ rest), left)

abbrev pub eof_slot : Bool → Slot
eof_slot newline = record {
  token = record { kind = TokenKind.eof; span = dummy };
  preceded_by_newline = newline;
}

unfoldable pub new : List Token → ParserTokenStream
unfolding slots
new toks =
    let (kept, pending) = slots false toks in
    record { tokens = kept ++ eof_slot pending ∷ []; pos = 0; ctx_stack = default_ctx ∷ [] }

-- The bottom context becomes a module's.
unfoldable pub set_bottom : List FnCtx → List FnCtx
set_bottom [] = []
set_bottom (c ∷ []) = record c { is_async = true; is_strict = true } ∷ []
set_bottom (c ∷ d ∷ rest) = c ∷ set_bottom (d ∷ rest)

unfoldable pub set_module : ParserTokenStream → ParserTokenStream
unfolding set_bottom
set_module s = record s { ctx_stack = set_bottom s.ctx_stack }

abbrev top_ctx : List FnCtx → FnCtx
top_ctx [] = default_ctx
top_ctx (c ∷ rest) = c

unfoldable pub current_ctx : ParserTokenStream → FnCtx
current_ctx s = top_ctx s.ctx_stack

unfoldable pub in_function : ParserTokenStream → Bool
in_function s = ltb 1 (length s.ctx_stack)

unfoldable pub push_ctx : FnCtx → ParserTokenStream → ParserTokenStream
push_ctx c s = record s { ctx_stack = c ∷ s.ctx_stack }

unfoldable pub enter_fn : Bool → Bool → ParserTokenStream → ParserTokenStream
unfolding push_ctx current_ctx
enter_fn is_async is_generator s =
    push_ctx
      (record {
        is_async = is_async;
        is_generator = is_generator;
        is_strict = (current_ctx s).is_strict;
      })
      s

unfoldable pub enter_strict_fn : Bool → Bool → ParserTokenStream → ParserTokenStream
unfolding push_ctx
enter_strict_fn is_async is_generator s =
    push_ctx (record { is_async = is_async; is_generator = is_generator; is_strict = true }) s

abbrev pop_stack : List FnCtx → List FnCtx
pop_stack (c ∷ d ∷ rest) = d ∷ rest
pop_stack stack = stack

unfoldable pub pop_ctx : ParserTokenStream → ParserTokenStream
pop_ctx s = record s { ctx_stack = pop_stack s.ctx_stack }

-- `self.tokens[self.pos]`; `none` is the panic.
unfoldable pub peek : ParserTokenStream → Option Slot
peek s = get_elem? s.tokens s.pos

-- `peek2`, `peek3`, `preceded_by_newline_at`: the index stops at the last token.
unfoldable pub peek_at : ℕ → ParserTokenStream → Option Slot
peek_at n s = get_elem? s.tokens (min (s.pos + n) (length s.tokens - 1))

unfoldable pub advance : ParserTokenStream → ParserTokenStream
advance s = if ltb (s.pos + 1) (length s.tokens) then record s { pos = s.pos + 1 } else s

unfoldable pub bump : ParserTokenStream → Option (Slot × ParserTokenStream)
unfolding peek advance
bump s = elim (peek s) [ none ↦ none | some slot ↦ some (slot, advance s) ]

-- `eat`, and with it `eat_keyword` and `eat_punctuator`.
unfoldable pub eat : TokenKind → ParserTokenStream → Option (Bool × ParserTokenStream)
unfolding peek advance token_beq
eat kind s = elim (peek s) [
  | none ↦ none
  | some slot ↦ some (if token_beq slot.token.kind kind then (true, advance s) else (false, s))
]

-- A token, or what the diagnostic says: where, what was expected and what was found.
pub data Expected : Type 0 where
  ok : Token → Expected
  error : Span → TokenKind → TokenKind → Expected

unfoldable pub expect : TokenKind → ParserTokenStream → Option (Expected × ParserTokenStream)
unfolding peek advance token_beq
expect kind s = elim (peek s) [
  | none ↦ none
  | some slot ↦ some (
      if token_beq slot.token.kind kind
      then (ok slot.token, advance s)
      else (error slot.token.span kind slot.token.kind, s))
]

unfoldable pub snapshot : ParserTokenStream → ℕ
snapshot s = s.pos

unfoldable pub restore : ℕ → ParserTokenStream → ParserTokenStream
restore snap s = record s { pos = snap }

abbrev pub last_newline : List Slot → Bool
last_newline [] = false
last_newline (s ∷ []) = s.preceded_by_newline
last_newline (s ∷ t ∷ rest) = last_newline (t ∷ rest)

unfoldable pub splice_tail : List Slot → ParserTokenStream → ParserTokenStream
splice_tail tail s = record s {
  tokens = take s.pos s.tokens ++ (tail ++ eof_slot (last_newline s.tokens) ∷ []);
}

-- `reslash_regex` and `reslash_div`: `relexed` is what the lexer yields from the current token's
-- start on, up to the end of the text, under the other goal.
unfoldable pub reslash : List Token → ParserTokenStream → Option ParserTokenStream
unfolding peek slots splice_tail
reslash relexed s = elim (peek s) [
  | none ↦ none
  | some slot ↦ some (splice_tail (slots slot.preceded_by_newline relexed).0 s)
]
