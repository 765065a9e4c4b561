-- ===== src/Lexer/Cursor.antt =====
-- crates/js-lexer/src/cursor.rs: a cursor over the code points of a text, with two of them read ahead.
pub mod View
use mathlib.Core.Option
use justscript.Prelude.{
  ℕ, zero, suc, ◌+◌, ◌-◌, Bool, true, false, not, ◌&&◌, Option, none, some, [], ◌∷◌, map, ltb, leb,
  if◌then◌else◌, ◌==◌, drop, Text, u32, nat_eq, list_eq,
}

abbrev pub eof_char : ℕ
eof_char = 0

-- `char::len_utf8`
unfoldable pub len_utf8 : ℕ → ℕ
len_utf8 c = if ltb c 0x80 then 1 else if ltb c 0x800 then 2 else if ltb c 0x10000 then 3 else 4

-- `str::len`
unfoldable pub byte_len : Text → ℕ
unfolding len_utf8
byte_len [] = 0
byte_len (c ∷ cs) = len_utf8 c + byte_len cs

-- `first` and `second` are the two characters of `ahead`; `chars` is what the iterator has left.
pub record Cursor : Type 0 where
  pub chars : Text
  pub start : ℕ
  pub pos : ℕ
  pub end : ℕ
  pub first : ℕ
  pub second : ℕ

abbrev pub next_or_eof : Text → ℕ
next_or_eof [] = eof_char
next_or_eof (c ∷ cs) = c

-- A cursor over `suffix`, which begins at byte `pos` of a text of `end` bytes at `address`.
abbrev over : ℕ → ℕ → ℕ → Text → Cursor
over address pos end suffix = record {
  chars = drop 2 suffix;
  start = address;
  pos = pos;
  end = end;
  first = next_or_eof suffix;
  second = next_or_eof (drop 1 suffix);
}

unfoldable pub new : ℕ → Text → Cursor
unfolding byte_len
new address src = over address 0 (byte_len src) src

-- `&src[byte_offset..]`; `none` is the panic off a character boundary.
unfoldable pub suffix_at : Text → ℕ → Option Text
unfolding len_utf8
suffix_at [] n = if n == 0 then some [] else none
suffix_at (c ∷ cs) n =
    if n == 0
    then some (c ∷ cs)
    else if ltb n (len_utf8 c)
    then none
    else suffix_at cs (n - len_utf8 c)

unfoldable pub new_at : ℕ → Text → ℕ → Option Cursor
unfolding suffix_at byte_len
new_at address src byte_offset =
    Option.map (over address byte_offset (byte_len src)) (suffix_at src byte_offset)

unfoldable pub peek_ahead4 : Cursor → Text
peek_ahead4 c = c.first ∷ c.second ∷ next_or_eof c.chars ∷ next_or_eof (drop 1 c.chars) ∷ []

unfoldable pub is_eof : Cursor → Bool
is_eof c = leb c.end c.pos

unfoldable pub byte_offset : Cursor → ℕ
byte_offset c = u32 c.pos

unfoldable pub bump : Cursor → ℕ × Cursor
unfolding is_eof len_utf8
bump c = if is_eof c then (c.first, c) else (
  c.first,
  record c {
    chars = drop 1 c.chars;
    pos = c.pos + len_utf8 c.first;
    first = c.second;
    second = next_or_eof c.chars;
  },
)

unfoldable pub eat : ℕ → Cursor → Bool × Cursor
unfolding bump
eat ch c = if c.first == ch then (true, (bump c).1) else (false, c)

-- Each round consumes a character, so the characters ahead are fuel enough.
unfoldable pub eat_while : ℕ → (ℕ → Bool) → Cursor → Cursor
eat_while zero pred c = c
eat_while (suc fuel) pred c =
    let rest = eat_while fuel pred (bump c).1 in if not (is_eof c) && pred c.first then rest else c

unfoldable pub reset_len : Cursor → Cursor
reset_len c = record c { start = c.pos }
