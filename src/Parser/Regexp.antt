-- ===== src/Parser/Regexp.antt =====
-- crates/js-parser/src/regexp.rs: the static check of regular expression patterns, escapes first.
pub mod Classes
pub mod Validate
pub mod Bounds
pub mod Progress
pub mod Ends
use justscript.Prelude.{
  ℕ, ◌+◌, ◌-◌, ◌*◌, ◌^◌, Bool, true, false, not, ◌&&◌, ◌||◌, Option, none, some, [], ◌∷◌, ltb, leb,
  if◌then◌else◌, ◌==◌, on_some, length, get_elem?, take, drop, Text, codes, nat_eq, list_eq,
}

pub data GroupKind : Type 0 where
  atom : GroupKind
  look_ahead : GroupKind
  assertion : GroupKind

pub data ClassAtom : Type 0 where
  singleton : ℕ → ClassAtom
  set_escape : ClassAtom

-- the messages of `Err`
pub data Fault : Type 0 where
  unmatched_close : Fault
  range_out_of_order : Fault
  unescaped_brace : Fault
  unescaped_syntax_character : Fault
  unterminated_group : Fault
  no_valid_atom : Fault
  invalid_named_group : Fault
  invalid_group_prefix : Fault
  class_range_out_of_order : Fault
  escape_as_endpoint : Fault
  unterminated_class : Fault
  incomplete_escape : Fault
  incomplete_control_escape : Fault
  invalid_control_escape : Fault
  legacy_octal_escape : Fault
  decimal_escape_in_class : Fault
  invalid_backreference : Fault
  invalid_named_backreference : Fault
  invalid_property_escape : Fault
  invalid_identity_escape : Fault
  invalid_hex_escape : Fault
  escape_out_of_range : Fault
  invalid_code_point_escape : Fault

-- `Ok`, `Err`, or the end of the rounds that a loop was given.
pub data Checked {ℓ} (A : Type ℓ) : Type ℓ where
  ok : A → Checked A
  err : Fault → Checked A
  starved : Checked A

infixl 1 ◌>>=◌
abbrev pub ◌>>=◌ {ℓ κ} : {A : Type ℓ} {B : Type κ} → Checked A → (A → Checked B) → Checked B
ok a >>= f = f a
err e >>= f = err e
starved >>= f = starved

-- `chars.get(pos).is_some_and(test)`
abbrev pub at : Text → ℕ → (ℕ → Bool) → Bool
at chars pos test = on_some (get_elem? chars pos) false test

-- `chars.get(pos) == Some(&c)`
abbrev pub is_at : Text → ℕ → ℕ → Bool
is_at chars pos c = at chars pos (λ d. d == c)

abbrev pub is_digit : ℕ → Bool
is_digit c = leb 48 c && leb c 57

abbrev pub is_alphabetic : ℕ → Bool
is_alphabetic c = (leb 65 c && leb c 90) || (leb 97 c && leb c 122)

-- `char::to_digit(16)`
unfoldable pub hex_digit : ℕ → Option ℕ
hex_digit c =
    if is_digit c
    then some (c - 48)
    else if leb 97 c && leb c 102
    then some (c - 87)
    else if leb 65 c && leb c 70
    then some (c - 55)
    else none

-- The position behind the characters of `cs` that satisfy `test`, `cs` being what stands at `pos`.
unfoldable pub scan : (ℕ → Bool) → Text → ℕ → ℕ
scan test [] pos = pos
scan test (c ∷ cs) pos = let rest = scan test cs (pos + 1) in if test c then rest else pos

abbrev pub scan_at : Text → ℕ → (ℕ → Bool) → ℕ
scan_at chars pos test = scan test (drop pos chars) pos

abbrev pub slice : Text → ℕ → ℕ → Text
slice chars start end = take (end - start) (drop start chars)

-- the fold of `decimal`, which ends in `None` on an overflow
unfoldable pub decimal_from : ℕ → Text → Option ℕ
decimal_from value [] = some value
decimal_from value (d ∷ ds) =
    let rest = decimal_from (value * 10 + (d - 48)) ds in
    if is_digit d && ltb (value * 10) (2 ^ 64) && ltb (value * 10 + (d - 48)) (2 ^ 64)
    then rest
    else none

unfoldable pub decimal : Text → ℕ → ℕ → Option ℕ
unfolding decimal_from
decimal chars start end = decimal_from 0 (slice chars start end)

unfoldable pub all_hex : Text → Bool
unfolding hex_digit
all_hex [] = true
all_hex (c ∷ cs) = on_some (hex_digit c) false (λ _. true) && all_hex cs

unfoldable pub fixed_hex_escape : Text → ℕ → ℕ → Checked ℕ
unfolding all_hex
fixed_hex_escape chars start digits =
    if leb (start + digits) (length chars) && all_hex (slice chars start (start + digits))
    then ok (start + digits)
    else err invalid_hex_escape

-- the loop of `unicode_escape`, with the value so far; a `u32` overflows
unfoldable pub hex_value : Text → ℕ → ℕ → Checked (ℕ × ℕ)
unfolding hex_digit
hex_value [] end value = ok (end, value)
hex_value (c ∷ cs) end value = on_some (hex_digit c) (ok (end, value)) λ d.
    let rest = hex_value cs (end + 1) (value * 16 + d) in
    if ltb (value * 16) (2 ^ 32) && ltb (value * 16 + d) (2 ^ 32)
    then rest
    else err escape_out_of_range

abbrev pub code_point_end : Text → ℕ → ℕ × ℕ → Checked ℕ
code_point_end chars start (end, value) =
    if end == start || not (is_at chars end b'}') || ltb 0x10ffff value
    then err invalid_code_point_escape
    else ok (end + 1)

unfoldable pub unicode_escape : Text → ℕ → Checked ℕ
unfolding fixed_hex_escape hex_value
unicode_escape chars start =
    if not (is_at chars start b'{')
    then fixed_hex_escape chars start 4
    else (hex_value (drop (start + 1) chars) (start + 1) 0 >>= code_point_end chars (start + 1))

-- The escapes that go on to a closing character: the name of a group, or of a property.
unfoldable pub enclosed : Text → ℕ → ℕ → ℕ → Fault → Checked ℕ
unfolding scan
enclosed chars end opener close fault =
    let last = scan_at chars (end + 1) (λ c. not (c == close)) in
    if not (is_at chars end opener)
    then err fault
    else if last == end + 1 || last == length chars
    then err fault
    else ok (last + 1)

unfoldable pub control_escape : Text → ℕ → Bool → Checked (ℕ × ClassAtom)
control_escape chars end unicode =
    on_some (get_elem? chars end) (err incomplete_control_escape) λ control.
      if is_alphabetic control
      then ok (end + 1, singleton control)
      else if unicode
      then err invalid_control_escape
      else ok (end, singleton control)

unfoldable pub decimal_escape : Text → ℕ → Bool → ℕ → Checked (ℕ × ClassAtom)
unfolding scan decimal
decimal_escape chars pos in_class captures =
    let end = scan_at chars (pos + 2) is_digit in
    if in_class
    then err decimal_escape_in_class
    else on_some (decimal chars (pos + 1) end) (err invalid_backreference)
        λ index. if ltb captures index then err invalid_backreference else ok (end, singleton 0)

unfoldable pub is_one_of : ℕ → Text → Bool
is_one_of c [] = false
is_one_of c (d ∷ ds) = c == d || is_one_of c ds

abbrev pub with_atom : ClassAtom → Checked ℕ → Checked (ℕ × ClassAtom)
with_atom a r = r >>= λ end. ok (end, a)

-- The escapes that only a Unicode pattern has, and its refusal of all others.
unfoldable pub unicode_only : Text → ℕ → ℕ → Bool → ℕ → Checked (ℕ × ClassAtom)
unfolding fixed_hex_escape unicode_escape enclosed decimal_escape is_one_of
unicode_only chars escaped pos in_class captures =
    if escaped == b'x'
    then with_atom (singleton 0) (fixed_hex_escape chars (pos + 2) 2)
    else if escaped == b'u'
    then with_atom (singleton 0) (unicode_escape chars (pos + 2))
    else if leb 49 escaped && leb escaped 57
    then decimal_escape chars pos in_class captures
    else if escaped == b'k'
    then with_atom (singleton 0) (enclosed chars (pos + 2) b'<' b'>' invalid_named_backreference)
    else if escaped == b'p' || escaped == b'P'
    then with_atom set_escape (enclosed chars (pos + 2) b'{' b'}' invalid_property_escape)
    else if is_one_of escaped (codes "^$\\.*+?()[]{}|/") || (in_class && escaped == b'-')
    then ok (pos + 2, singleton escaped)
    else err invalid_identity_escape

unfoldable pub escape_of : Text → ℕ → ℕ → Bool → Bool → ℕ → Checked (ℕ × ClassAtom)
unfolding is_one_of control_escape unicode_only
escape_of chars escaped pos unicode in_class captures =
    if is_one_of escaped (codes "dDsSwW")
    then ok (pos + 2, set_escape)
    else if not in_class && (escaped == b'b' || escaped == b'B')
    then ok (pos + 2, set_escape)
    else if is_one_of escaped (codes "bfnrtv")
    then ok (pos + 2, singleton escaped)
    else if escaped == b'c'
    then control_escape chars (pos + 2) unicode
    else if escaped == b'0' && not (unicode && at chars (pos + 2) is_digit)
    then ok (pos + 2, singleton 0)
    else if escaped == b'0'
    then err legacy_octal_escape
    else if unicode
    then unicode_only chars escaped pos in_class captures
    else ok (pos + 2, singleton escaped)

unfoldable pub parse_escape_kind : Text → ℕ → Bool → Bool → ℕ → Checked (ℕ × ClassAtom)
unfolding escape_of
parse_escape_kind chars pos unicode in_class captures =
    on_some (get_elem? chars (pos + 1)) (err incomplete_escape)
      λ escaped. escape_of chars escaped pos unicode in_class captures
