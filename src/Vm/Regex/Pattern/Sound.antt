-- ===== src/Vm/Regex/Pattern/Sound.antt =====
-- crates/js-vm/src/regex.rs: a pattern is read to its end or refused, and compiles to code in range.
use justscript.Prelude.{
  ℕ, zero, suc, ◌-◌, ◌≤◌, ◌≡◌, ap, Bool, true, false, none, [], arith, if◌then◌else◌, length, All,
  get_elem?-none_le, Text,
}
use justscript.Vm.Regex.{Ast, RegexProgram, needs_backtrack}
use justscript.Vm.Regex.Compile.{compile_program}
use justscript.Vm.Regex.Compile.Targets.{GroupsAtMost, InRange, compile_program-InRange}
use justscript.Vm.Regex.Pattern.{Parser, peek}
use justscript.Vm.Regex.Pattern.Grammar.{parse_alt, new_parser, finished, parse, compile_regex}
use justscript.Vm.Regex.Pattern.Reads.{Ends, NameAtMost, IsParser, bind-Ends, on_char-Ends}
use justscript.Vm.Regex.Pattern.Rules.{Reading}
use justscript.Vm.Regex.Pattern.Nested.{Works}
use justscript.Vm.Regex.Pattern.Terms.{alternatives-Reading}

-- Depth beyond the characters left is enough for every nesting of parentheses.
parse_alt-Works : (depth : ℕ) → Works depth (parse_alt depth)
unfolding parse_alt
parse_alt-Works zero p h room = absurd (omega (arith, h.inside))
parse_alt-Works (suc depth) p h room =
    alternatives-Reading (parse_alt depth) depth (parse_alt-Works depth) p h room

-- A pattern that was read to its end, with all its groups and names counted.
abbrev pub WasRead : Text → Ast × Parser → Type 0
WasRead pattern (a, p) =
    (p.pos ≡ length pattern) × GroupsAtMost p.group_count a × All (NameAtMost p.group_count) p.names

peek-none_le : (p : Parser) → peek p ≡ none → length p.chars ≤ p.pos
unfolding peek
peek-none_le p e = get_elem?-none_le p.chars p.pos e

-- The parser ends on every pattern, in an error, in a panic, or with a pattern that it has read to
-- its end, in which no group and no name has a number above the count of the groups.
pub parse-WasRead : (pattern : Text) → Ends (WasRead pattern) (parse pattern)
unfolding parse
parse-WasRead pattern =
    let p = new_parser pattern in
    let valid : IsParser p = record { inside = omega arith; named = tt } in
    bind-Ends (Reading p) (WasRead pattern) (parse_alt (suc (length pattern)) p) finished
      (parse_alt-Works (suc (length pattern)) p valid (omega arith))
      λ (a, q) (k, g).
        on_char-Ends (WasRead pattern) (peek q) _ _
          (λ e.
            (omega (arith, peek-none_le q e, k.valid.inside, ap length k.same), g, k.valid.named))
          (λ _ _. tt)

if-code :
    (b : Bool) (groups : ℕ) (a : Ast)
    → GroupsAtMost groups a
    → All
        (InRange groups (length (if b then [] else compile_program a) - 1))
        (if b then [] else compile_program a)
if-code true groups a g = tt
if-code false groups a g = compile_program-InRange groups a g

-- A program whose code, groups and names fit its number of groups.
pub record FitsGroups (r : RegexProgram) : Type 0 where
  pub code : All (InRange r.num_groups (length r.insns - 1)) r.insns
  pub groups : GroupsAtMost r.num_groups r.ast
  pub names : All (NameAtMost r.num_groups) r.names

-- Compiling a pattern ends: in an error, in a panic, or with a program in whose code every jump
-- leads to an instruction and every saved slot is a capture, and whose groups and names are counted.
pub compile_regex-FitsGroups :
    (pattern flags : Text) → Ends FitsGroups (compile_regex pattern flags)
unfolding compile_regex
compile_regex-FitsGroups pattern flags =
    bind-Ends (WasRead pattern) FitsGroups (parse pattern) _ (parse-WasRead pattern)
      λ (a, p) (_, g, names). record {
        code = if-code (needs_backtrack a) p.group_count a g;
        groups = g;
        names = names;
      }
