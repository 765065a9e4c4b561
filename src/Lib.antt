-- ===== src/Lib.antt =====
-- A model of justscript, a JavaScript engine: its source text is lexed, parsed, compiled to bytecode,
-- verified and run. Modelled are the data and the pure core that those stages share: source
-- positions, tokens, the lexer's cursor, punctuators and literal checks, the parser's token stream, BigInt literals,
-- binding cells, constant pools, local slots, control frames, scopes, code emission with jump
-- patching, the bytecode verifier, the static check of regular expressions, and the engine that
-- runs them.
--
-- How the parts interact: the lexer moves a cursor over the text and yields tokens with spans; the
-- token stream drops the trivia, remembers line terminators, and lexes again behind a `/` that the
-- lexer took wrong; the compiler interns constants and names, emits instructions with their spans and
-- patches jumps; the verifier admits a finished module to the backends. A regular expression literal
-- passes the parser's check; at run time its text is parsed again, compiled to instructions for the
-- linear matcher or kept as a tree for the backtracking one, and run from each start in turn.
--
-- Files and what they model:
--   Prelude: tests into Bool, lists, association maps, text and machine words.
--   Syntax/Source: crates/js-syntax/src/source.rs (Span, SourceFile, SourceMap).
--   Syntax/Token, Keyword, Punctuator: crates/js-syntax/src/{token,keyword,punctuator}.rs.
--   Syntax/Op: crates/js-syntax/src/ast/op.rs.
--   Lexer/Cursor: crates/js-lexer/src/cursor.rs (Cursor).
--   Lexer/Punctuators, Goal: crates/js-lexer/src/lexer.rs (eat_punctuator, match_punctuator,
--     update_regex_state).
--   Lexer/Numeric: crates/js-lexer/src/validate.rs (validate_numeric_literal).
--   Parser/Stream: crates/js-parser/src/token_stream.rs (ParserTokenStream). The lexer's tokens are an
--     argument.
--   Parser/Regexp: crates/js-parser/src/regexp.rs (validate_pattern and all it calls).
--   Parser/EarlyErrors: the scopes of crates/js-parser/src/early_errors.rs (enter, leave,
--     declare_lexical, declare_block_function, declare_var, declare_params) and its
--     check_statement_list_names. The names that the tree declares are arguments.
--   Parser/Operators: the tables of crates/js-parser/src/expr.rs (binding_power and the assignment
--     operators); Bytecode/Operators: emit_binop and compound_to_binop of the compiler.
--   Vm/Regex: crates/js-vm/src/regex.rs. Pattern is the parser (Parser), Repeat expand_repeat, Compile
--     the Compiler, Pike the linear matcher (pike_chars, VmCtx::add), Backtrack the matcher by
--     continuations (match_at, m_concat, m_star, m_look), Search the loops over the starts, the byte
--     offsets and find_all, Chars the tests of characters. Backtrack/Outcomes describes a pattern by
--     the list of what it can do, in order; Pike/Runs describes code by its runs.
--   Runtime/BigInt: crates/js-runtime/src/value.rs (JsBigInt::from_literal).
--   Bytecode/Opcode, Local, Constant: crates/js-bytecode/src/{opcode,local,constant}.rs.
--   Bytecode/Function: crates/js-bytecode/src/module.rs, and emit_placeholder, emit_jump and patch of
--     crates/js-bytecode/src/compiler.rs.
--   Bytecode/Verify: crates/js-bytecode/src/verify.rs.
--   Bytecode/Control: push_loop, pop_loop, push_label, pop_label, emit_break and emit_continue of
--     crates/js-bytecode/src/compiler.rs.
--   Bytecode/Scopes: declare_local, resolve_var, resolve_upvalue and add_upvalue of the same file.
--   Runtime/Cell: crates/js-runtime/src/value.rs (Cell, BindingCell).
-- The child modules of a part prove its properties; each part's Tests hold runs on concrete inputs.
--
-- Conventions: a text is the list of its code points, a source file's text the list of its UTF-8 bytes.
-- Integers are native naturals; a cast or an increment that wraps in a release build is written as
-- `u16` or `u32`. A panic is `none`. A hash map is an association list whose newest entry wins. A
-- float is the number of its bits; the conversion from an integer to those bits is a parameter.
--
-- Fuel: the cursor's `eat_while` takes the number of characters left, since each round consumes one.
-- The carry of a BigInt digit is written in at most ten rounds, as a `u32` has ten decimal digits.
--
-- A star of the backtracking matcher takes one round more than the text has characters, since each
-- iteration advances; `add` of the linear matcher one more than there are instructions, since each
-- round marks one; the pattern parsers one more than the pattern has characters, since each round of a
-- loop reads one and each level of parentheses too. That these are enough is proved. `find_all` takes
-- two rounds more than the text has bytes. A character class over code points stands for `char`, and a
-- capture vector for `Vec<Option<usize>>`; positions have no upper bound.
--
-- Not modelled: the scanners of identifiers, numbers, strings, templates and regexes, the recursive
-- descent parser and the walk of its early errors, the lowering of the syntax tree, the interpreter,
-- the builtins, the object heap, the module loader, the command line and the conformance runner. They
-- need the whole syntax tree or a heap of shared objects, or are input and output.
pub mod Prelude
pub mod Syntax
pub mod Lexer
pub mod Parser
pub mod Runtime
pub mod Bytecode
pub mod Vm
