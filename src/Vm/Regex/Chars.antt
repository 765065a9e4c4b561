-- ===== src/Vm/Regex/Chars.antt =====
-- crates/js-vm/src/regex.rs: the tests of characters and positions that both matchers share.
use justscript.Prelude.{
  ℕ, ◌+◌, ◌-◌, Bool, true, false, not, ◌&&◌, ◌||◌, Option, none, some, List, [], ◌∷◌, ltb, leb,
  if◌then◌else◌, ◌==◌, length, get_elem?, Text, nat_eq,
}
use justscript.Vm.Regex.{RegexProgram}

abbrev pub newline : ℕ
newline = 10

-- `char::to_ascii_lowercase`
unfoldable pub to_ascii_lowercase : ℕ → ℕ
to_ascii_lowercase c = if leb 65 c && leb c 90 then c + 32 else c

-- `char::to_ascii_uppercase`
unfoldable pub to_ascii_uppercase : ℕ → ℕ
to_ascii_uppercase c = if leb 97 c && leb c 122 then c - 32 else c

unfoldable pub char_eq : ℕ → ℕ → Bool → Bool
unfolding to_ascii_lowercase
char_eq a b ignore_case =
    if a == b
    then true
    else if ignore_case
    then to_ascii_lowercase a == to_ascii_lowercase b
    else false

abbrev between : ℕ → ℕ → ℕ → Bool
between lo hi c = leb lo c && leb c hi

-- the loop of `class_matches`: the value of `found` after it
unfoldable pub class_found : ℕ → List (ℕ × ℕ) → Bool → Bool
unfolding to_ascii_lowercase to_ascii_uppercase
class_found c [] ignore_case = false
class_found c ((lo, hi) ∷ ranges) ignore_case =
    if between lo hi c
    then true
    else if ignore_case
        && (between lo hi (to_ascii_lowercase c) || between lo hi (to_ascii_uppercase c))
    then true
    else class_found c ranges ignore_case

abbrev pub differ : Bool → Bool → Bool
differ true b = not b
differ false b = b

unfoldable pub class_matches : ℕ → List (ℕ × ℕ) → Bool → Bool → Bool
unfolding class_found
class_matches c ranges negated ignore_case = differ (class_found c ranges ignore_case) negated

unfoldable pub is_word_char : ℕ → Bool
is_word_char c = between 48 57 c || between 65 90 c || between 97 122 c || c == 95

-- The test on the character at a position, false where there is none.
abbrev pub holds_at : (ℕ → Bool) → Option ℕ → Bool
holds_at test none = false
holds_at test (some c) = test c

abbrev pub char_at : Text → ℕ → Option ℕ
char_at chars pos = get_elem? chars pos

-- `pos > 0 && …chars[pos - 1]`
abbrev pub char_before : Text → ℕ → Option ℕ
char_before chars pos = if ltb 0 pos then get_elem? chars (pos - 1) else none

unfoldable pub is_boundary : Text → ℕ → Bool
unfolding is_word_char
is_boundary chars pos =
    differ (holds_at is_word_char (char_before chars pos))
      (holds_at is_word_char (char_at chars pos))

-- the tests of `^` and `$`, which the two matchers write out alike
unfoldable pub at_start : RegexProgram → Text → ℕ → Bool
at_start self chars pos =
    pos == 0 || (self.multiline && holds_at (λ c. c == newline) (char_before chars pos))

unfoldable pub at_end : RegexProgram → Text → ℕ → Bool
at_end self chars pos =
    pos == length chars || (self.multiline && holds_at (λ c. c == newline) (char_at chars pos))

-- the test of `.`
unfoldable pub dot_matches : RegexProgram → ℕ → Bool
dot_matches self c = self.dotall || not (c == newline)
