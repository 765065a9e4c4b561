-- ===== src/Parser/Regexp/Validate.antt =====
-- crates/js-parser/src/regexp.rs: the check of a whole pattern.
use justscript.Prelude.{
  ℕ, zero, suc, ◌+◌, ◌-◌, Bool, true, false, not, ◌&&◌, ◌||◌, Option, none, some, List, [], ◌∷◌,
  ltb, if◌then◌else◌, ◌==◌, on_some, length, get_elem?, Text, nat_eq, list_eq,
}
use justscript.Parser.Regexp.{
  GroupKind, atom, look_ahead, assertion, ClassAtom, singleton, set_escape, unmatched_close,
  range_out_of_order, unescaped_brace, unescaped_syntax_character, unterminated_group,
  no_valid_atom, invalid_named_group, invalid_group_prefix, Checked, ok, err, starved, ◌>>=◌, is_at,
  is_digit, scan, scan_at, decimal, is_one_of, parse_escape_kind,
}
use justscript.Parser.Regexp.Classes.{parse_class}

-- The variables of the loop of `validate_pattern`.
pub record Scan : Type 0 where
  pub pos : ℕ
  pub groups : List GroupKind
  pub quantifiable : Option GroupKind
  pub just_quantified : Bool

unfoldable pub require_quantifiable : Option GroupKind → Bool → Checked (Unit {0})
require_quantifiable (some atom) unicode = ok tt
require_quantifiable (some look_ahead) false = ok tt
require_quantifiable _ unicode = err no_valid_atom

-- the name of a group, from `pos + 3`
unfoldable pub named_prefix : Text → ℕ → Checked (GroupKind × ℕ)
unfolding scan
named_prefix chars pos =
    let end = scan_at chars (pos + 3) (λ c. not (c == b'>')) in
    if end == pos + 3 || end == length chars
    then err invalid_named_group
    else ok (atom, end - pos + 1)

unfoldable pub group_prefix : Text → ℕ → Checked (GroupKind × ℕ)
unfolding named_prefix
group_prefix chars pos =
    if not (is_at chars (pos + 1) b'?')
    then ok (atom, 1)
    else if is_at chars (pos + 2) b':'
    then ok (atom, 3)
    else if is_at chars (pos + 2) b'=' || is_at chars (pos + 2) b'!'
    then ok (look_ahead, 3)
    else if not (is_at chars (pos + 2) b'<')
    then err invalid_group_prefix
    else if is_at chars (pos + 3) b'=' || is_at chars (pos + 3) b'!'
    then ok (assertion, 4)
    else named_prefix chars pos

abbrev pub braces_end : Text → ℕ → ℕ → Option ℕ → Option (ℕ × ℕ × Option ℕ)
braces_end chars cursor least most =
    if is_at chars cursor b'}' then some (cursor + 1, least, most) else none

-- What follows the least number, at `cursor`.
unfoldable pub braces_rest : Text → ℕ → ℕ → Option (ℕ × ℕ × Option ℕ)
unfolding scan decimal
braces_rest chars cursor least =
    let end = scan_at chars (cursor + 1) is_digit in
    if not (is_at chars cursor b',')
    then braces_end chars cursor least (some least)
    else if end == cursor + 1
    then braces_end chars end least none
    else on_some (decimal chars (cursor + 1) end) none
        λ most. braces_end chars end least (some most)

unfoldable pub braced_quantifier : Text → ℕ → Option (ℕ × ℕ × Option ℕ)
unfolding scan decimal braces_rest
braced_quantifier chars pos =
    let end = scan_at chars (pos + 1) is_digit in
    if end == pos + 1
    then none
    else on_some (decimal chars (pos + 1) end) none λ least. braces_rest chars end least

-- the end of a branch of the loop: on to `pos` with what may be quantified there
abbrev pub go : ℕ → Option GroupKind → Scan → Scan
go pos quantifiable s = record s { pos = pos; quantifiable = quantifiable; just_quantified = false }

abbrev pub quantified : ℕ → Scan → Scan
quantified pos s = record s { pos = pos; quantifiable = none; just_quantified = true }

unfoldable pub is_assertion : Text → ℕ → ClassAtom → Bool
is_assertion chars pos (singleton _) = false
is_assertion chars pos set_escape = is_at chars (pos + 1) b'b' || is_at chars (pos + 1) b'B'

-- `groups.pop()`
abbrev pub pop_group : List GroupKind → Scan → Checked Scan
pop_group [] s = err unmatched_close
pop_group (kind ∷ groups) s = ok (go (s.pos + 1) (some kind) (record s { groups = groups }))

abbrev pub close_group : Scan → Checked Scan
close_group s = pop_group s.groups s

abbrev pub below : ℕ → Option ℕ → Bool
below least none = false
below least (some most) = ltb most least

-- the two branches on what `braced_quantifier` found
abbrev pub brace_found : Bool → Scan → Option (ℕ × ℕ × Option ℕ) → Checked Scan
brace_found true s none = err unescaped_brace
brace_found false s none = ok (go (s.pos + 1) (some atom) s)
brace_found unicode s (some (end, least, most)) =
    require_quantifiable s.quantifiable unicode >>= λ _.
    if below least most then err range_out_of_order else ok (quantified end s)

unfoldable pub brace : Text → Bool → Scan → Checked Scan
unfolding braced_quantifier require_quantifiable
brace chars unicode s = brace_found unicode s (braced_quantifier chars s.pos)

unfoldable pub quantifier : ℕ → Bool → Scan → Checked Scan
unfolding require_quantifiable
quantifier c unicode s =
    if c == b'?' && s.just_quantified
    then ok (record s { pos = s.pos + 1; just_quantified = false })
    else (require_quantifiable s.quantifiable unicode >>= λ _. ok (quantified (s.pos + 1) s))

-- One round of the loop, at the character `c`.
unfoldable pub step : Text → Bool → ℕ → ℕ → Scan → Checked Scan
unfolding parse_escape_kind is_assertion parse_class group_prefix brace quantifier
step chars unicode captures c s =
    if c == b'\\'
    then (parse_escape_kind chars s.pos unicode false captures >>= λ (end, kind).
        ok (go end (some (if is_assertion chars s.pos kind then assertion else atom)) s))
    else if c == b'['
    then (parse_class chars s.pos unicode captures >>= λ end. ok (go end (some atom) s))
    else if c == b'('
    then (group_prefix chars s.pos >>= λ (kind, prefix_len).
        ok (go (s.pos + prefix_len) none (record s { groups = kind ∷ s.groups })))
    else if c == b')'
    then close_group s
    else if c == b'^' || c == b'$'
    then ok (go (s.pos + 1) (some assertion) s)
    else if c == b'|'
    then ok (go (s.pos + 1) none s)
    else if c == b'*' || c == b'+' || c == b'?'
    then quantifier c unicode s
    else if c == b'{'
    then brace chars unicode s
    else if unicode && (c == b']' || c == b'}')
    then err unescaped_syntax_character
    else ok (go (s.pos + 1) (some atom) s)

abbrev pub closed : List GroupKind → Checked (Unit {0})
closed [] = ok tt
closed (_ ∷ _) = err unterminated_group

-- Each round reads a character.
unfoldable pub validate_from : ℕ → Text → Bool → ℕ → Scan → Checked (Unit {0})
unfolding step
validate_from zero chars unicode captures s = starved
validate_from (suc rounds) chars unicode captures s =
    on_some (get_elem? chars s.pos) (closed s.groups)
      λ c. step chars unicode captures c s >>= validate_from rounds chars unicode captures

-- A parenthesis at `pos` that opens a group with a number.
abbrev captures_at : Text → ℕ → Bool
captures_at chars pos =
    not (is_at chars (pos + 1) b'?')
    || (is_at chars (pos + 2) b'<'
        && not (is_at chars (pos + 3) b'=' || is_at chars (pos + 3) b'!'))

-- `capture_count` over the characters from `pos`, `skip` of them to pass over
unfoldable pub count_from : Text → Text → ℕ → Bool → Bool → ℕ
count_from chars [] pos skip in_class = 0
count_from chars (c ∷ cs) pos skip in_class =
    let passed = count_from chars cs (pos + 1) false in
    let escaped = count_from chars cs (pos + 1) true in_class in
    if skip
    then passed in_class
    else if c == b'\\'
    then escaped
    else if c == b'['
    then passed true
    else if c == b']'
    then passed false
    else if c == b'(' && not in_class && captures_at chars pos
    then suc (passed in_class)
    else passed in_class

unfoldable pub capture_count : Text → ℕ
unfolding count_from
capture_count chars = count_from chars chars 0 false false

unfoldable pub validate_pattern : Text → Text → Checked (Unit {0})
unfolding validate_from capture_count is_one_of
validate_pattern pattern flags =
    validate_from (suc (length pattern)) pattern (is_one_of b'u' flags) (capture_count pattern)
      (record { pos = 0; groups = []; quantifiable = none; just_quantified = false })
