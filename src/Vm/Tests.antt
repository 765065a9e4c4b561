-- ===== src/Vm/Tests.antt =====
-- Runs of crates/js-vm/src/regex.rs on small patterns.
use justscript.Parser.Regexp.{Checked}
use justscript.Parser.Regexp.Validate.{validate_pattern}
use justscript.Prelude.{
  ℕ, ◌-◌, ◌≡◌, refl, ◌≢◌, true, false, Option, none, some, List, [], ◌∷◌, arith, length, take, drop,
  All, Text, codes,
}
use justscript.Vm.Regex.{Ast, nil, cons, RegexProgram, Caps}
use justscript.Vm.Regex.Repeat.{expand_repeat}
use justscript.Vm.Regex.Compile.{compile_program}
use justscript.Vm.Regex.Compile.Targets.{InRange, GroupsAtMost, compile_program-InRange}
use justscript.Vm.Regex.Pattern.{expected_backref_name, Parsed, done, ◌>>=◌}
use justscript.Vm.Regex.Pattern.Grammar.{compile_regex, parse}
use justscript.Vm.Regex.Pattern.Reads.{Ends}
use justscript.Vm.Regex.Pattern.Sound.{WasRead, parse-WasRead, FitsGroups, compile_regex-FitsGroups}
use justscript.Vm.Regex.Backtrack.{accept, match_at, diverged}
use justscript.Vm.Regex.Backtrack.Outcomes.{outcomes, choose}
use justscript.Vm.Regex.Backtrack.Views.{view}
use justscript.Vm.Regex.Backtrack.Refines.{match_at-outcomes}
use justscript.Vm.Regex.Backtrack.Total.{match_at-ends}
use justscript.Vm.Regex.Backtrack.Repeats.{times, optional, expand_repeat-outcomes}
use justscript.Vm.Regex.Pike.{pike_chars}
use justscript.Vm.Regex.Pike.Rounds.{Yields, Found}
use justscript.Vm.Regex.Pike.Sound.{pike_chars-Found}
use justscript.Vm.Regex.Search.Offsets.{group_text-build_match, start_char_index-to_byte}
use justscript.Vm.Regex.Search.{
  group_text, build_match, to_byte, RegexMatch, Exec, value, endless, start_char_index,
  run_backtrack, run,
}
use justscript.Vm.Regex.Search.Leftmost.{leftmost, run_backtrack-leftmost, run-ends}

-- `(a|b)*` and a backreference to its group
abbrev letter : Ast
letter = Ast.group (Ast.alt (cons (Ast.char b'a') (cons (Ast.char b'b') nil))) 1

abbrev letters : Ast
letters = Ast.star letter true

abbrev doubled : Ast
doubled = Ast.concat (cons letters (cons (Ast.backref 1) nil))

-- What `compile` makes of `(a|b)*\1`.
abbrev program : RegexProgram
program = record {
  insns = [];
  ast = doubled;
  num_groups = 1;
  names = [];
  ignore_case = false;
  multiline = false;
  dotall = false;
  backtracks = true;
}

-- … and of `(a|b)*`.
abbrev linear : RegexProgram
linear = record {
  insns = compile_program letters;
  ast = letters;
  num_groups = 1;
  names = [];
  ignore_case = false;
  multiline = false;
  dotall = false;
  backtracks = false;
}

abbrev text : Text
text = codes "cabb"

abbrev slots : Caps
slots = none ∷ none ∷ none ∷ none ∷ []

match_at-outcomes_example :
    view (match_at program text doubled 1 slots accept)
    ≡ choose (λ p c. view (accept p c)) (outcomes program text doubled 1 slots)
match_at-outcomes_example = match_at-outcomes program text doubled 1 slots accept

match_at-ends_example : match_at program text doubled 1 slots accept ≢ diverged
match_at-ends_example =
    match_at-ends program text doubled 1 slots accept (omega arith) (λ p c _ _ bad. absurd (cc))

expand_repeat-outcomes_example :
    outcomes program text (expand_repeat letter 2 (some 3) true) 1 slots
    ≡ times 2 (outcomes program text letter) (optional program text letter 2 (some 3) true) 1 slots
expand_repeat-outcomes_example = expand_repeat-outcomes program text letter 2 (some 3) true 1 slots

letters-Groups : GroupsAtMost 1 letters
unfolding GroupsAtMost
letters-Groups = (omega arith, (tt, (tt, tt)))

compile_program-InRange_example :
    All (InRange 1 (length (compile_program letters) - 1)) (compile_program letters)
compile_program-InRange_example = compile_program-InRange 1 letters (letters-Groups)

pike_chars-Found_example : Yields (Found linear text 1) (pike_chars linear text 1)
pike_chars-Found_example = pike_chars-Found linear text 1

run_backtrack-leftmost_example : run_backtrack program text 0 ≡ leftmost program text 5 0
unfolding start_char_index
run_backtrack-leftmost_example = run_backtrack-leftmost program text 0

run-ends_example : run program text 0 ≢ endless
run-ends_example = run-ends program text 0

parse-WasRead_example :
    Ends (WasRead (codes "(?<n>a|b)*\\k<n>{2}")) (parse (codes "(?<n>a|b)*\\k<n>{2}"))
parse-WasRead_example = parse-WasRead (codes "(?<n>a|b)*\\k<n>{2}")

compile_regex-FitsGroups_example :
    Ends FitsGroups (compile_regex (codes "(a|b)*?x{2,3}") (codes "gi"))
compile_regex-FitsGroups_example = compile_regex-FitsGroups (codes "(a|b)*?x{2,3}") (codes "gi")

-- The span of the first match of a pattern in a text.
abbrev first_match : Text → Text → Parsed (Exec (Option RegexMatch))
first_match pattern input = do r ← compile_regex pattern []; done (run r input 0)

abbrev at_span : List (Option (ℕ × ℕ)) → Parsed (Exec (Option RegexMatch))
at_span spans = done (value (some (record { captures = spans })))

named_group :
    first_match (codes "(?<n>a|b)\\k<n>") (codes "abba") ≡ at_span (some (1, 3) ∷ some (1, 2) ∷ [])
unfolding compile_regex run
named_group = refl

-- The linear matcher keeps the last thread that matched: a lazy star takes all it can.
lazy_star : first_match (codes "a*?") (codes "aaa") ≡ at_span (some (0, 3) ∷ [])
unfolding compile_regex run
lazy_star = refl

-- … and a later alternative that is longer is preferred.
longer_alternative : first_match (codes "a|ab") (codes "ab") ≡ at_span (some (0, 2) ∷ [])
unfolding compile_regex run
longer_alternative = refl

-- A lookbehind tries only the first way in which its inside matches from each start.
lookbehind : first_match (codes "(?<=a|ab)c") (codes "abc") ≡ done (value none)
unfolding compile_regex run
lookbehind = refl

-- A group that is open again starts behind its old end: the backreference subtracts below zero.
open_group : first_match (codes "(?:(a\\1)x*)+") (codes "axxa") ≡ done Exec.panic
unfolding compile_regex run
open_group = refl

-- A group number that no `usize` holds is unwrapped.
huge_backref : first_match (codes "\\99999999999999999999") (codes "a") ≡ Parsed.panic
unfolding compile_regex run
huge_backref = refl

-- Inside a class an escape is its letter: the digits do not match.
class_digits : first_match (codes "[\\d]") (codes "5") ≡ done (value none)
unfolding compile_regex run
class_digits = refl

-- A hexadecimal escape is the letter and its digits.
hex_escape : first_match (codes "\\x41") (codes "A") ≡ done (value none)
unfolding compile_regex run
hex_escape = refl

-- What the parser's check accepts, the engine refuses.
unnamed_backref : validate_pattern (codes "\\k") [] ≡ Checked.ok tt
unfolding validate_pattern
unnamed_backref = refl

unnamed_backref-engine : first_match (codes "\\k") (codes "k") ≡ Parsed.err expected_backref_name
unfolding compile_regex run
unnamed_backref-engine = refl

-- Characters of one, two, three and one bytes, and a group of the two in the middle.
abbrev wide : Text
wide = codes "aé€b"

abbrev wide_caps : Caps
wide_caps = some 0 ∷ some 4 ∷ some 1 ∷ some 3 ∷ []

group_text-build_match_example :
    group_text (build_match wide wide_caps) wide 1 ≡ some (take 2 (drop 1 wide))
group_text-build_match_example = group_text-build_match wide wide_caps 1 1 2 refl refl (omega arith)

start_char_index-to_byte_example : start_char_index wide (to_byte wide 3) ≡ 3
start_char_index-to_byte_example = start_char_index-to_byte wide 3 (omega arith)
