-- ===== src/Vm/Regex/Search.antt =====
-- crates/js-vm/src/regex.rs: the search for a match in a text, and the byte offsets of its groups.
pub mod Leftmost
pub mod Offsets
use mathlib.Core.Option
use justscript.Prelude.{
  ℕ, zero, suc, ◌+◌, ◌-◌, Bool, not, ◌&&◌, Option, none, some, List, [], ◌∷◌, map, ltb, leb,
  if◌then◌else◌, ◌==◌, ◌>>=◌, on_some, length, get_or, set, Text, nat_eq, list_eq,
}
use justscript.Lexer.Cursor.{len_utf8, byte_len, suffix_at}
use justscript.Vm.Regex.{RegexProgram, Caps}
use justscript.Vm.Regex.Backtrack.{Run, found, failed, panicked, diverged, Cont, match_at}
use justscript.Vm.Regex.Pike.{no_caps, pike_chars}

-- The byte offsets of each group: `none` for a group that took no part.
pub record RegexMatch : Type 0 where
  pub captures : List (Option (ℕ × ℕ))

-- A call that returned, that panicked, or a loop out of rounds.
pub data Exec {ℓ} (A : Type ℓ) : Type ℓ where
  value : A → Exec A
  panic : Exec A
  endless : Exec A

abbrev pub on_value {ℓ κ} : {A : Type ℓ} {B : Type κ} → Exec A → (A → Exec B) → Exec B
on_value (value a) f = f a
on_value panic f = panic
on_value endless f = endless

unfoldable pub full_match : RegexMatch → Option (ℕ × ℕ)
full_match m = get_or m.captures 0 none

-- the first bytes of a text: `none` where they end inside a character or after its end
unfoldable pub prefix_of : Text → ℕ → Option Text
unfolding len_utf8
prefix_of [] n = if n == 0 then some [] else none
prefix_of (c ∷ cs) n =
    if n == 0
    then some []
    else if ltb n (len_utf8 c)
    then none
    else Option.map (◌∷◌ c) (prefix_of cs (n - len_utf8 c))

-- `input.get(s..e)`
unfoldable pub byte_slice : Text → ℕ → ℕ → Option Text
unfolding suffix_at prefix_of
byte_slice input s e =
    if ltb e s then none else (do rest ← suffix_at input s; prefix_of rest (e - s))

unfoldable pub group_text : RegexMatch → Text → ℕ → Option Text
unfolding byte_slice
group_text m input n = do (s, e) ← get_or m.captures n none; byte_slice input s e

-- the loop of `start_char_index`: `byte` is the offset of character `i`
unfoldable pub char_index_from : Text → ℕ → ℕ → ℕ → ℕ
unfolding len_utf8
char_index_from [] start byte i = if leb start byte then i else 0
char_index_from (c ∷ cs) start byte i =
    let rest = char_index_from cs start (byte + len_utf8 c) (i + 1) in
    if leb start byte then i else rest

unfoldable pub start_char_index : Text → ℕ → ℕ
unfolding char_index_from
start_char_index input start = char_index_from input start 0 0

-- the loop that fills `byte_of`, after `b` has been pushed
unfoldable pub byte_offsets : ℕ → Text → List ℕ
unfolding len_utf8
byte_offsets b [] = b ∷ []
byte_offsets b (c ∷ cs) = b ∷ byte_offsets (b + len_utf8 c) cs

unfoldable pub to_byte : Text → ℕ → ℕ
unfolding byte_offsets byte_len
to_byte chars ci = get_or (byte_offsets 0 chars) ci (byte_len chars)

abbrev span : Text → Option ℕ → Option ℕ → Option (ℕ × ℕ)
span chars (some s) (some e) = some (to_byte chars s, to_byte chars e)
span chars _ _ = none

-- `caps.chunks(2)`; the slots are an even number
unfoldable pub spans : Text → Caps → List (Option (ℕ × ℕ))
unfolding to_byte
spans chars [] = []
spans chars (s ∷ []) = []
spans chars (s ∷ e ∷ caps) = span chars s e ∷ spans chars caps

unfoldable pub build_match : Text → Caps → RegexMatch
unfolding spans
build_match chars caps = record { captures = spans chars caps }

-- the continuation of the whole pattern
abbrev pub done : ℕ → Cont
done origin p c = found p (set (set c 0 (some origin)) 1 (some p))

-- What a trial at one start leads to.
abbrev pub or_next : Text → Run → Exec (Option RegexMatch) → Exec (Option RegexMatch)
or_next chars (found p caps) next = value (some (build_match chars caps))
or_next chars (failed _) next = next
or_next chars panicked next = panic
or_next chars diverged next = endless

-- the loop over the starts: `left` of them from `s`
unfoldable pub backtrack_from : RegexProgram → Text → ℕ → ℕ → Exec (Option RegexMatch)
unfolding match_at build_match
backtrack_from self chars zero s = value none
backtrack_from self chars (suc left) s =
    or_next chars (match_at self chars self.ast s (no_caps self) (done s))
      (backtrack_from self chars left (s + 1))

-- `start_idx..=chars.len()`
abbrev pub starts_left : Text → ℕ → ℕ
starts_left chars start = suc (length chars) - start

unfoldable pub run_backtrack : RegexProgram → Text → ℕ → Exec (Option RegexMatch)
unfolding backtrack_from start_char_index
run_backtrack self input start =
    let start_idx = start_char_index input start in
    backtrack_from self input (starts_left input start_idx) start_idx

abbrev pub or_next_pike :
    Text → Option (Option Caps) → Exec (Option RegexMatch) → Exec (Option RegexMatch)
or_next_pike chars (some (some caps)) next = value (some (build_match chars caps))
or_next_pike chars (some none) next = next
or_next_pike chars none next = endless

unfoldable pub pike_from : RegexProgram → Text → ℕ → ℕ → Exec (Option RegexMatch)
unfolding pike_chars build_match
pike_from self chars zero s = value none
pike_from self chars (suc left) s =
    or_next_pike chars (pike_chars self chars s) (pike_from self chars left (s + 1))

unfoldable pub run_pike : RegexProgram → Text → ℕ → Exec (Option RegexMatch)
unfolding pike_from start_char_index
run_pike self input start =
    let start_idx = start_char_index input start in
    pike_from self input (starts_left input start_idx) start_idx

unfoldable pub run : RegexProgram → Text → ℕ → Exec (Option RegexMatch)
unfolding run_backtrack run_pike
run self input start =
    if self.backtracks then run_backtrack self input start else run_pike self input start

-- The offset after the character at `s`, or the end of the text.
abbrev after_char : Text → ℕ → Text → ℕ
after_char input s (c ∷ _ ∷ _) = s + len_utf8 c
after_char input s _ = byte_len input

-- Where the search goes on after the span of a match; `input[s..]` can panic.
unfoldable pub next_start : Text → ℕ × ℕ → Exec ℕ
unfolding suffix_at len_utf8 byte_len
next_start input (s, e) =
    if ltb s e
    then value e
    else on_some (suffix_at input s) panic λ rest. value (after_char input s rest)

abbrev span_or : Option (ℕ × ℕ) → ℕ → ℕ × ℕ
span_or none cur = (cur, cur)
span_or (some se) cur = se

-- `cur <= input.len() && cur != prev`
abbrev goes_on : Text → ℕ → Option ℕ → Bool
goes_on input cur none = leb cur (byte_len input)
goes_on input cur (some prev) = leb cur (byte_len input) && not (cur == prev)

-- the loop of `find_all`
unfoldable pub find_from : RegexProgram → Text → ℕ → ℕ → Option ℕ → Exec (List RegexMatch)
unfolding run full_match next_start byte_len
find_from self input zero cur prev = endless
find_from self input (suc rounds) cur prev =
    if not (goes_on input cur prev)
    then value []
    else on_value (run self input cur) λ found_one. on_some found_one (value []) λ m.
      on_value (next_start input (span_or (full_match m) cur))
        λ next. on_value (find_from self input rounds next (some cur)) λ later. value (m ∷ later)

unfoldable pub find_all : RegexProgram → Text → ℕ → Exec (List RegexMatch)
unfolding find_from byte_len
find_all self input start = find_from self input (byte_len input + 2) start none
