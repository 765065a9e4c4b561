-- ===== src/Vm/Regex/Search/Leftmost.antt =====
-- crates/js-vm/src/regex.rs: the search ends, and finds the first start at which the pattern matches.
use justscript.Prelude.{
  ℕ, zero, suc, ◌+◌, ◌≤◌, ◌≡◌, refl, ap, ◌∙◌, ◌≢◌, Bool, true, false, Option, none, some, List, [],
  ◌∷◌, arith, if◌then◌else◌, length, set, Text,
}
use justscript.Lexer.Cursor.{len_utf8}
use justscript.Vm.Regex.{RegexProgram, Caps}
use justscript.Vm.Regex.Backtrack.{Run, found, failed, panicked, diverged, match_at}
use justscript.Vm.Regex.Backtrack.Outcomes.{
  Outcome, reached, broke, ran_out, Choice, chosen, no_match, broken, undecided, or_choice, choose,
  outcomes,
}
use justscript.Vm.Regex.Backtrack.Views.{view}
use justscript.Vm.Regex.Backtrack.Refines.{match_at-outcomes}
use justscript.Vm.Regex.Backtrack.Total.{match_at-ends}
use justscript.Vm.Regex.Pike.{no_caps, pike_chars}
use justscript.Vm.Regex.Pike.Rounds.{Yields, Found}
use justscript.Vm.Regex.Pike.Sound.{pike_chars-Found}
use justscript.Vm.Regex.Search.{
  RegexMatch, Exec, value, panic, endless, char_index_from, start_char_index, build_match, done,
  or_next, backtrack_from, starts_left, run_backtrack, or_next_pike, pike_from, run_pike, run,
}

-- The first of the outcomes decides at a start, and the next start is tried only if there is none.
unfoldable pub first_of :
    Text → ℕ → List Outcome → Exec (Option RegexMatch) → Exec (Option RegexMatch)
unfolding build_match
first_of chars s (reached p c ∷ _) next =
    value (some (build_match chars (set (set c 0 (some s)) 1 (some p))))
first_of chars s (broke ∷ _) next = panic
first_of chars s (ran_out ∷ _) next = endless
first_of chars s [] next = next

-- The search that is meant: over the starts in order, by what the pattern can do there.
unfoldable pub leftmost : RegexProgram → Text → ℕ → ℕ → Exec (Option RegexMatch)
unfolding first_of outcomes
leftmost self chars zero s = value none
leftmost self chars (suc left) s =
    first_of chars s (outcomes self chars self.ast s (no_caps self))
      (leftmost self chars left (s + 1))

abbrev by_choice : Text → Choice → Exec (Option RegexMatch) → Exec (Option RegexMatch)
by_choice chars (chosen p c) next = value (some (build_match chars c))
by_choice chars no_match next = next
by_choice chars broken next = panic
by_choice chars undecided next = endless

or_next-view :
    (chars : Text) (r : Run) (next : Exec (Option RegexMatch))
    → or_next chars r next ≡ by_choice chars (view r) next
unfolding view
or_next-view chars (found p c) next = refl
or_next-view chars (failed c) next = refl
or_next-view chars panicked next = refl
or_next-view chars diverged next = refl

choose-first_of :
    (chars : Text) (s : ℕ) (os : List Outcome) (next : Exec (Option RegexMatch))
    → by_choice chars (choose (λ p c. view (done s p c)) os) next ≡ first_of chars s os next
unfolding choose or_choice view first_of
choose-first_of chars s [] next = refl
choose-first_of chars s (reached p c ∷ os) next = refl
choose-first_of chars s (broke ∷ os) next = refl
choose-first_of chars s (ran_out ∷ os) next = refl

backtrack_from-leftmost :
    (self : RegexProgram) (chars : Text) (left s : ℕ)
    → backtrack_from self chars left s ≡ leftmost self chars left s
unfolding backtrack_from leftmost
backtrack_from-leftmost self chars zero s = refl
backtrack_from-leftmost self chars (suc left) s =
    let r = match_at self chars self.ast s (no_caps self) (done s) in
    let os = outcomes self chars self.ast s (no_caps self) in
    let next = backtrack_from self chars left (s + 1) in
    or_next-view chars r next
    ∙ ap (λ v. by_choice chars v next)
        (match_at-outcomes self chars self.ast s (no_caps self) (done s))
    ∙ choose-first_of chars s os next
    ∙ ap (first_of chars s os) (backtrack_from-leftmost self chars left (s + 1))

-- The backtracking search gives what the search over the starts in order gives that takes the first
-- outcome of the pattern at the first start with an outcome, with group 0 set to its span.
pub run_backtrack-leftmost :
    (self : RegexProgram) (input : Text) (start : ℕ)
    → run_backtrack self input start
      ≡ leftmost self input
          (starts_left input (start_char_index input start))
          (start_char_index input start)
unfolding run_backtrack
run_backtrack-leftmost self input start =
    let start_idx = start_char_index input start in
    backtrack_from-leftmost self input (starts_left input start_idx) start_idx

or_next-ends :
    (chars : Text) (r : Run) (next : Exec (Option RegexMatch))
    → r ≢ diverged
    → next ≢ endless
    → or_next chars r next ≢ endless
or_next-ends chars (found p c) next h k = λ bad. absurd (cc)
or_next-ends chars (failed c) next h k = k
or_next-ends chars panicked next h k = λ bad. absurd (cc)
or_next-ends chars diverged next h k = λ bad. h refl

backtrack_from-ends :
    (self : RegexProgram) (chars : Text) (left s : ℕ)
    → s + left ≤ suc (length chars)
    → backtrack_from self chars left s ≢ endless
unfolding backtrack_from
backtrack_from-ends self chars zero s h = λ bad. absurd (cc)
backtrack_from-ends self chars (suc left) s h =
    or_next-ends chars (match_at self chars self.ast s (no_caps self) (done s)) _
      (match_at-ends self chars self.ast s (no_caps self) (done s) (omega arith)
        (λ p c _ _ bad. absurd (cc)))
      (backtrack_from-ends self chars left (s + 1) (omega arith))

or_next_pike-ends :
    (chars : Text) (self : RegexProgram) (s : ℕ) (o : Option (Option Caps))
    (next : Exec (Option RegexMatch))
    → Yields (Found self chars s) o
    → next ≢ endless
    → or_next_pike chars o next ≢ endless
or_next_pike-ends chars self s none next h k = absurd h
or_next_pike-ends chars self s (some none) next h k = k
or_next_pike-ends chars self s (some (some caps)) next h k = λ bad. absurd (cc)

pike_from-ends :
    (self : RegexProgram) (chars : Text) (left s : ℕ) → pike_from self chars left s ≢ endless
unfolding pike_from
pike_from-ends self chars zero s = λ bad. absurd (cc)
pike_from-ends self chars (suc left) s =
    or_next_pike-ends chars self s (pike_chars self chars s) _ (pike_chars-Found self chars s)
      (pike_from-ends self chars left (s + 1))

char_index_from-le :
    (cs : Text) (start byte i : ℕ) → char_index_from cs start byte i ≤ i + length cs
unfolding char_index_from
char_index_from-le [] start byte i = ground arith
char_index_from-le (c ∷ cs) start byte i =
    ground (arith, char_index_from-le cs start (byte + len_utf8 c) (i + 1))

if-ends :
    (b : Bool) (x y : Exec (Option RegexMatch))
    → x ≢ endless
    → y ≢ endless
    → (if b then x else y) ≢ endless
if-ends true x y h k = h
if-ends false x y h k = k

start_char_index-le : (input : Text) (start : ℕ) → start_char_index input start ≤ length input
unfolding start_char_index
start_char_index-le input start = omega (arith, char_index_from-le input start 0 0)

-- The search from any byte offset ends: with a match, without one, or in a panic of the matcher.
pub run-ends : (self : RegexProgram) (input : Text) (start : ℕ) → run self input start ≢ endless
unfolding run run_backtrack run_pike
run-ends self input start =
    let start_idx = start_char_index input start in
    if-ends self.backtracks _ _
      (backtrack_from-ends self input _ start_idx (omega (arith, start_char_index-le input start)))
      (pike_from-ends self input _ start_idx)
