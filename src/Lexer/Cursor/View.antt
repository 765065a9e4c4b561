-- ===== src/Lexer/Cursor/View.antt =====
-- crates/js-lexer/src/cursor.rs: the text that a cursor stands before.
use justscript.Prelude.{
  ℕ, zero, suc, ◌+◌, ◌-◌, ◌≤◌, ◌<◌, ◌≡◌, refl, ap, inl, inr, Bool, true, false, some, [], ◌∷◌,
  arith, if◌then◌else◌, Bool-cases, length, drop, Text,
}
use justscript.Lexer.Cursor.{
  over, eof_char, len_utf8, byte_len, Cursor, next_or_eof, new, suffix_at, new_at, peek_ahead4,
  is_eof, bump, eat_while,
}

-- The cursor stands before `rest`: what it has read ahead and what its iterator holds are `rest`, and
-- its offsets are those of `rest` in the source.
pub record IsBefore (rest : Text) (c : Cursor) : Type 0 where
  pub first_is : c.first ≡ next_or_eof rest
  pub second_is : c.second ≡ next_or_eof (drop 1 rest)
  pub chars_are : c.chars ≡ drop 2 rest
  pub end_is : c.end ≡ c.pos + byte_len rest

pub len_utf8_pos : (c : ℕ) → 0 < len_utf8 c
unfolding len_utf8
len_utf8_pos c = ground arith

-- A new cursor stands before the whole text.
pub new-IsBefore : (address : ℕ) (src : Text) → IsBefore src (new address src)
unfolding new
new-IsBefore address src = record {
  first_is = refl;
  second_is = refl;
  chars_are = refl;
  end_is = omega arith;
}

byte_len-suffix_at :
    (src : Text) (n : ℕ) {suffix : Text}
    → suffix_at src n ≡ some suffix
    → byte_len src ≡ n + byte_len suffix
unfolding suffix_at byte_len
byte_len-suffix_at [] n h = ground arith
byte_len-suffix_at (c ∷ cs) n {suffix} h =
    ground (arith, byte_len-suffix_at cs (n - len_utf8 c) {suffix = suffix})

-- A cursor put at a character boundary stands before the text from there on, at that offset.
pub new_at-IsBefore :
    (address : ℕ) (src : Text) (n : ℕ) {suffix : Text}
    → suffix_at src n ≡ some suffix
    → (c : Cursor) × (new_at address src n ≡ some c) × (c.pos ≡ n) × IsBefore suffix c
unfolding new_at
new_at-IsBefore address src n {suffix} h = (
  over address n (byte_len src) suffix,
  rw h,
  refl,
  record {
    first_is = refl;
    second_is = refl;
    chars_are = refl;
    end_is = byte_len-suffix_at src n h;
  },
)

drop_one : (s : Text) → drop 1 (drop 1 s) ≡ drop 2 s
drop_one [] = refl
drop_one (a ∷ []) = refl
drop_one (a ∷ b ∷ s) = refl

-- A cursor before a text that begins with a character is not at the end; `bump` returns the
-- character and moves the cursor behind it, its offset by the bytes of the character.
pub bump-IsBefore :
    (x : ℕ) (rest : Text) (c : Cursor)
    → IsBefore (x ∷ rest) c
    → (is_eof c ≡ false)
      × ((bump c).0 ≡ x)
      × ((bump c).1.pos ≡ c.pos + len_utf8 x)
      × IsBefore rest (bump c).1
unfolding bump is_eof byte_len
bump-IsBefore x rest c v = ground (arith, len_utf8_pos x, drop_one rest)

-- At the end `bump` returns NUL and stays.
pub bump-eof : (c : Cursor) → IsBefore [] c → (is_eof c ≡ true) × (bump c ≡ (eof_char, c))
unfolding bump is_eof byte_len
bump-eof c v = ground arith

-- The four characters ahead, NUL behind the end.
abbrev pub pad : ℕ → Text → Text
pad zero s = []
pad (suc n) [] = eof_char ∷ pad n []
pad (suc n) (c ∷ cs) = c ∷ pad n cs

pub peek_ahead4-pad : (rest : Text) (c : Cursor) → IsBefore rest c → peek_ahead4 c ≡ pad 4 rest
unfolding peek_ahead4
peek_ahead4-pad [] c v = ground arith
peek_ahead4-pad (x ∷ []) c v = ground arith
peek_ahead4-pad (x ∷ y ∷ []) c v = ground arith
peek_ahead4-pad (x ∷ y ∷ z ∷ []) c v = ground arith
peek_ahead4-pad (x ∷ y ∷ z ∷ w ∷ rest) c v = ground arith

-- The text behind the characters that satisfy `pred`.
abbrev pub drop_while : (ℕ → Bool) → Text → Text
drop_while pred [] = []
drop_while pred (c ∷ cs) = let rest = drop_while pred cs in if pred c then rest else c ∷ cs

-- Given as many rounds as there are characters ahead, `eat_while` ends behind the longest run of
-- characters that satisfy the predicate.
pub eat_while-IsBefore :
    (fuel : ℕ) (pred : ℕ → Bool) (rest : Text) (c : Cursor)
    → length rest ≤ fuel
    → IsBefore rest c
    → IsBefore (drop_while pred rest) (eat_while fuel pred c)
unfolding eat_while
eat_while-IsBefore zero pred [] c h v = v
eat_while-IsBefore zero pred (x ∷ rest) c h v = absurd (omega arith)
eat_while-IsBefore (suc fuel) pred [] c h v = rw ((bump-eof c v).0) v
eat_while-IsBefore (suc fuel) pred (x ∷ rest) c h v =
    let (more, _, _, v') = bump-IsBefore x rest c v in
    let same : pred c.first ≡ pred x = ap pred v.first_is in
    elim (Bool-cases (pred x)) [
      | inl go ↦ rw (more, same, go) (eat_while-IsBefore fuel pred rest (bump c).1 (omega arith) v')
      | inr stop ↦ rw (more, same, stop) v
    ]
