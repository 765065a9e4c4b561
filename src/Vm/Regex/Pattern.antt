-- ===== src/Vm/Regex/Pattern.antt =====
-- crates/js-vm/src/regex.rs: the parser of patterns, its state and the parts without recursion.
pub mod Escapes
pub mod Classes
pub mod Groups
pub mod Grammar
pub mod Reads
pub mod Rules
pub mod Leaves
pub mod Nested
pub mod Terms
pub mod Sound
use mathlib.Core.Option
use justscript.Prelude.{
  ℕ, ◌+◌, ◌-◌, ◌*◌, ◌^◌, Bool, true, false, ◌&&◌, Option, none, some, List, [], ◌∷◌, map, ltb, leb,
  if◌then◌else◌, ◌==◌, get_elem?, drop, Text, nat_eq, list_eq,
}
use justscript.Vm.Regex
use justscript.Vm.Regex.{Ast}
use justscript.Vm.Regex.Repeat.{expand_repeat}
use justscript.Vm.Regex.Backtrack.{slice}

pub record Parser : Type 0 where
  pub chars : Text
  pub pos : ℕ
  pub group_count : ℕ
  pub names : List (Text × ℕ)

-- the messages of `Err`
pub data PatternError : Type 0 where
  unexpected : ℕ → ℕ → PatternError
  unexpected_end : PatternError
  bad_group_prefix : PatternError
  missing_close : PatternError
  bad_group_name : PatternError
  unterminated_group_name : PatternError
  empty_group_name : PatternError
  unterminated_class : PatternError
  bad_class_escape : PatternError
  trailing_backslash : PatternError
  unknown_group_name : Text → PatternError
  unterminated_backref_name : PatternError
  expected_backref_name : PatternError

-- `Ok`, `Err`, a panic, or the end of the rounds that a loop was given.
pub data Parsed {ℓ} (A : Type ℓ) : Type ℓ where
  done : A → Parsed A
  err : PatternError → Parsed A
  panic : Parsed A
  starved : Parsed A

infixl 1 ◌>>=◌
abbrev pub ◌>>=◌ {ℓ κ} : {A : Type ℓ} {B : Type κ} → Parsed A → (A → Parsed B) → Parsed B
done a >>= f = f a
err e >>= f = err e
panic >>= f = panic
starved >>= f = starved

-- `match` on what `peek` or `bump` gave
abbrev pub on_char {ℓ} : {A : Type ℓ} → Option ℕ → Parsed A → (ℕ → Parsed A) → Parsed A
on_char none at_end f = at_end
on_char (some c) at_end f = f c

abbrev pub Rule : Type 0
Rule = Parser → Parsed (Ast × Parser)

unfoldable pub peek : Parser → Option ℕ
peek p = get_elem? p.chars p.pos

unfoldable pub peek2 : Parser → Option ℕ
peek2 p = get_elem? p.chars (p.pos + 1)

abbrev pub is_char : ℕ → Option ℕ → Bool
is_char c none = false
is_char c (some d) = d == c

-- `self.peek() == Some(c)`
abbrev pub next_is : ℕ → Parser → Bool
next_is c p = is_char c (peek p)

-- `bump`: the character, and the parser after it.
unfoldable pub bump : Parser → Option ℕ × Parser
unfolding peek
bump p = elim (peek p) [ none ↦ (none, p) | some c ↦ (some c, record p { pos = p.pos + 1 }) ]

-- `bump` for its effect alone
unfoldable pub skip : Parser → Parser
unfolding bump
skip p = (bump p).1

abbrev pub is_ascii_digit : ℕ → Bool
is_ascii_digit c = leb 48 c && leb c 57

-- `while test(peek) { self.bump(); }` over the characters that are left
unfoldable pub skip_while : (ℕ → Bool) → Text → Parser → Parser
unfolding skip
skip_while test [] p = p
skip_while test (c ∷ cs) p = if test c then skip_while test cs (skip p) else p

abbrev pub skip_digits : Parser → Parser
skip_digits p = skip_while is_ascii_digit (drop p.pos p.chars) p

-- `self.chars[start.pos..end.pos]`
abbrev pub text_between : Parser → Parser → Text
text_between from to = slice from.chars from.pos to.pos

unfoldable pub digits_value : ℕ → Text → ℕ
digits_value n [] = n
digits_value n (d ∷ ds) = digits_value (10 * n + (d - 48)) ds

-- `str::parse::<usize>` of a text of digits: `none` where the value does not fit.
unfoldable pub parse_usize : Text → Option ℕ
unfolding digits_value
parse_usize ds = if ltb (digits_value 0 ds) (2 ^ 64) then some (digits_value 0 ds) else none

-- What follows the least number of a bounded repetition: the most, where there is one.
unfoldable pub braces_most : ℕ → Parser → Option (Option ℕ × Parser)
unfolding skip skip_while parse_usize
braces_most least p =
    if next_is b',' p
    then (let s = skip p in
        let ended = skip_digits s in
        if s.pos == ended.pos
        then some (none, ended)
        else Option.map (λ most. (some most, ended)) (parse_usize (text_between s ended)))
    else some (some least, p)

unfoldable pub braces_close : ℕ → Option ℕ × Parser → Option ((ℕ × Option ℕ) × Parser)
unfolding skip
braces_close least (most, p) = if next_is b'}' p then some ((least, most), skip p) else none

unfoldable pub try_braces : Parser → Option ((ℕ × Option ℕ) × Parser)
unfolding skip skip_while parse_usize braces_most braces_close
try_braces p =
    let ended = skip_digits p in
    if ended.pos == p.pos
    then none
    else Option.bind (parse_usize (text_between p ended))
        λ least. Option.bind (braces_most least ended) (braces_close least)

-- The question mark of a lazy quantifier: whether the quantifier is greedy, and the parser after it.
unfoldable pub greediness : Parser → Bool × Parser
unfolding skip
greediness p = if next_is b'?' p then (false, skip p) else (true, p)

unfoldable pub repeated : Ast → Parser → Option ((ℕ × Option ℕ) × Parser) → Ast × Parser
unfolding greediness expand_repeat
repeated atom p none = (atom, p)
repeated atom p (some ((least, most), ended)) =
    (expand_repeat atom least most (greediness ended).0, (greediness ended).1)

-- `parse_quant` after its atom
unfoldable pub quantify : Ast → Parser → Ast × Parser
unfolding skip greediness try_braces repeated
quantify atom p =
    let (greedy, after) = greediness (skip p) in
    if next_is b'*' p
    then (Ast.star atom greedy, after)
    else if next_is b'+' p
    then (Ast.plus atom greedy, after)
    else if next_is b'?' p
    then (Ast.quest atom greedy, after)
    else if next_is b'{' p
    then repeated atom p (try_braces (skip p))
    else (atom, p)
