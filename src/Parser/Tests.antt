-- ===== src/Parser/Tests.antt =====
-- Runs of crates/js-parser/src/{token_stream,regexp}.rs on small inputs.
use justscript.Parser.Regexp.{ok, err, starved, no_valid_atom, parse_escape_kind}
use justscript.Parser.Regexp.Validate.{validate_pattern}
use justscript.Parser.Regexp.Bounds.{Checks, BetweenAtom, parse_escape_kind-Between}
use justscript.Parser.Regexp.Ends.{validate_pattern-ends}
use justscript.Prelude.{
  ℕ, ◌+◌, ◌-◌, ◌<◌, min, ◌≡◌, refl, ◌≢◌, true, false, some, List, [], ◌∷◌, ◌++◌, arith, length,
  get_elem?, Text, codes,
}
use justscript.Syntax.Source.{dummy}
use justscript.Syntax.Token.{TokenKind, Token, is_trivia}
use justscript.Parser.Stream.{
  Slot, ParserTokenStream, new, eof_slot, peek, ok, reslash, pop_ctx, current_ctx, in_function,
  enter_fn, enter_strict_fn,
}
use justscript.Parser.Stream.Newlines.{Spaced, flatten, to_slots, any_newline, new-flatten}
use justscript.Parser.Stream.Position.{IsStream, bumps, new-IsStream, bumps_lem}
use justscript.Parser.Stream.Relex.{reslash_lem}
use justscript.Parser.Stream.Contexts.{
  Steps, IsNested, done, next, function, leave, Steps-IsNested, enter_fn-current_ctx,
}

abbrev token : TokenKind → Token
token k = record { kind = k; span = dummy }

abbrev x : TokenKind
x = TokenKind.ident (codes "x")

-- `x`, a line terminator and `y`, behind a space.
abbrev two_lines : List Spaced
two_lines =
    record { gap = []; token = token x }
    ∷ record {
      gap = token TokenKind.line_terminator ∷ token TokenKind.whitespace ∷ [];
      token = token (TokenKind.ident (codes "y"));
    }
    ∷ []

abbrev stream : ParserTokenStream
stream = new (flatten two_lines [])

new-flatten_example : stream.tokens ≡ to_slots two_lines ++ eof_slot (any_newline []) ∷ []
unfolding is_trivia
new-flatten_example = new-flatten two_lines [] ((tt, refl), (((refl, (refl, tt)), refl), tt)) tt

stream-IsStream : IsStream stream
stream-IsStream = new-IsStream (flatten two_lines [])

bumps_lem_example :
    bumps 7 stream ≡ some (record stream { pos = min (stream.pos + 7) (length stream.tokens - 1) })
bumps_lem_example = bumps_lem 7 stream stream-IsStream

reslash_lem_example :
    (slot : Slot) × (t : ParserTokenStream) × (peek stream ≡ some slot)
    × (reslash (token (TokenKind.regex [] []) ∷ []) stream ≡ some t)
    × IsStream t
    × (t.pos ≡ stream.pos)
    × (t.ctx_stack ≡ stream.ctx_stack)
    × (peek t
        ≡ some (record {
          token = token (TokenKind.regex [] []);
          preceded_by_newline = slot.preceded_by_newline;
        }))
    × ((i : ℕ) → i < stream.pos → get_elem? t.tokens i ≡ get_elem? stream.tokens i)
unfolding is_trivia
reslash_lem_example = reslash_lem (token (TokenKind.regex [] [])) [] stream refl stream-IsStream

stream-nonempty : 0 < length stream.ctx_stack
unfolding new
stream-nonempty = omega arith

abbrev visited : ParserTokenStream
visited = pop_ctx (enter_fn true false stream)

visit : Steps stream visited
visit = next (function true false) (next leave done)

stream-IsNested : IsNested stream.ctx_stack
unfolding new
stream-IsNested = tt

Steps-IsNested_example :
    IsNested visited.ctx_stack × (visited.tokens ≡ stream.tokens) × (visited.pos ≡ stream.pos)
Steps-IsNested_example = Steps-IsNested visit stream-IsNested

enter_fn-current_ctx_example :
    (current_ctx (enter_fn true false stream) ≡ record {
      is_async = true;
      is_generator = false;
      is_strict = (current_ctx stream).is_strict;
    })
    × (current_ctx (enter_strict_fn true false stream)
        ≡ record { is_async = true; is_generator = false; is_strict = true })
    × (in_function (enter_fn true false stream) ≡ true)
    × (in_function (enter_strict_fn true false stream) ≡ true)
enter_fn-current_ctx_example = enter_fn-current_ctx true false stream stream-nonempty

-- Patterns of crates/js-parser/src/regexp.rs.
abbrev pattern : Text
pattern = codes "(?<a>[b-d]\\u{1F600})\\1{2,}?"

validate_pattern-runs : validate_pattern pattern (codes "gu") ≡ ok tt
unfolding validate_pattern
validate_pattern-runs = refl

quantified_assertion : validate_pattern (codes ".(?<=.)?") [] ≡ err no_valid_atom
unfolding validate_pattern
quantified_assertion = refl

validate_pattern-ends_example : validate_pattern pattern (codes "gu") ≢ starved
validate_pattern-ends_example = validate_pattern-ends pattern (codes "gu")

parse_escape_kind-Between_example :
    Checks (BetweenAtom pattern 12) (parse_escape_kind pattern 10 true false 1)
parse_escape_kind-Between_example = parse_escape_kind-Between pattern 10 true false 1
