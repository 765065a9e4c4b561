-- ===== src/Vm/Regex/Search/Offsets.antt =====
-- crates/js-vm/src/regex.rs: character positions and byte offsets.
use justscript.Prelude.{
  ℕ, zero, suc, ◌+◌, ◌-◌, ◌*◌, ◌≤◌, ◌≡◌, refl, false, none, some, [], ◌∷◌, arith, ltb, ◌==◌, length,
  get_or, take, drop, length-drop, Text, nat_eq, list_eq,
}
use justscript.Lexer.Cursor.{len_utf8, byte_len, suffix_at}
use justscript.Lexer.Cursor.View.{len_utf8_pos}
use justscript.Vm.Regex.{Caps}
use justscript.Vm.Regex.Search.{
  char_index_from, start_char_index, byte_offsets, to_byte, prefix_of, byte_slice, spans, span,
  group_text, build_match,
}

offset_above : (cs : Text) (b k d : ℕ) → k ≤ length cs → b ≤ get_or (byte_offsets b cs) k d
unfolding byte_offsets
offset_above [] b zero d h = omega arith
offset_above [] b (suc k) d h = absurd (omega arith)
offset_above (c ∷ cs) b zero d h = omega arith
offset_above (c ∷ cs) b (suc k) d h =
    omega (arith, offset_above cs (b + len_utf8 c) k d (omega arith))

char_index_from-offset :
    (cs : Text) (b i k d : ℕ)
    → k ≤ length cs
    → char_index_from cs (get_or (byte_offsets b cs) k d) b i ≡ i + k
unfolding byte_offsets char_index_from
char_index_from-offset [] b i zero d h = ground arith
char_index_from-offset [] b i (suc k) d h = absurd (omega arith)
char_index_from-offset (c ∷ cs) b i zero d h = ground arith
char_index_from-offset (c ∷ cs) b i (suc k) d h =
    let above = offset_above cs (b + len_utf8 c) k d (omega arith) in
    let rest = char_index_from-offset cs (b + len_utf8 c) (i + 1) k d (omega arith) in
    let first = len_utf8_pos c in ground arith

-- The byte offset of a character position of a text, its end included, leads back to the position.
pub start_char_index-to_byte :
    (input : Text) (i : ℕ) → i ≤ length input → start_char_index input (to_byte input i) ≡ i
unfolding start_char_index to_byte
start_char_index-to_byte input i h =
    omega (arith, char_index_from-offset input 0 0 i (byte_len input) h)

-- The offsets of the positions of a text that starts at offset `b` are those of the text at 0, moved.
offset-shift :
    (cs : Text) (b k d : ℕ)
    → k ≤ length cs
    → get_or (byte_offsets b cs) k d ≡ b + get_or (byte_offsets 0 cs) k 0
unfolding byte_offsets
offset-shift [] b zero d h = omega arith
offset-shift [] b (suc k) d h = absurd (omega arith)
offset-shift (c ∷ cs) b zero d h = omega arith
offset-shift (c ∷ cs) b (suc k) d h =
    let here = offset-shift cs (b + len_utf8 c) k d (omega arith) in
    let there = offset-shift cs (0 + len_utf8 c) k 0 (omega arith) in omega arith

abbrev offset : Text → ℕ → ℕ
unfolding byte_offsets
offset cs k = get_or (byte_offsets 0 cs) k 0

offset-suc :
    (c : ℕ) (cs : Text) (k : ℕ) → k ≤ length cs → offset (c ∷ cs) (suc k) ≡ len_utf8 c + offset cs k
unfolding byte_offsets offset
offset-suc c cs k h = omega (arith, offset-shift cs (0 + len_utf8 c) k 0 h)

suffix_at-offset :
    (cs : Text) (k : ℕ) → k ≤ length cs → suffix_at cs (offset cs k) ≡ some (drop k cs)
unfolding suffix_at offset byte_offsets
suffix_at-offset [] zero h = refl
suffix_at-offset [] (suc k) h = absurd (omega arith)
suffix_at-offset (c ∷ cs) zero h = refl
suffix_at-offset (c ∷ cs) (suc k) h =
    let next = offset-suc c cs k (omega arith) in
    let rest = suffix_at-offset cs k (omega arith) in
    let first = len_utf8_pos c in
    let back : offset (c ∷ cs) (suc k) - len_utf8 c ≡ offset cs k = omega arith in
    let ahead : ltb (offset (c ∷ cs) (suc k)) (len_utf8 c) ≡ false = ground arith in
    let some_left : (offset (c ∷ cs) (suc k) == 0) ≡ false = ground arith in
    rw (some_left, ahead, back) rest

prefix_of-offset :
    (cs : Text) (k : ℕ) → k ≤ length cs → prefix_of cs (offset cs k) ≡ some (take k cs)
unfolding prefix_of offset byte_offsets
prefix_of-offset [] zero h = refl
prefix_of-offset [] (suc k) h = absurd (omega arith)
prefix_of-offset (c ∷ cs) zero h = refl
prefix_of-offset (c ∷ cs) (suc k) h =
    let next = offset-suc c cs k (omega arith) in
    let rest = prefix_of-offset cs k (omega arith) in
    let first = len_utf8_pos c in
    let back : offset (c ∷ cs) (suc k) - len_utf8 c ≡ offset cs k = omega arith in
    let ahead : ltb (offset (c ∷ cs) (suc k)) (len_utf8 c) ≡ false = ground arith in
    let some_left : (offset (c ∷ cs) (suc k) == 0) ≡ false = ground arith in
    rw (some_left, ahead, back, rest) refl

offset-zero : (cs : Text) → offset cs 0 ≡ 0
unfolding offset byte_offsets
offset-zero [] = refl
offset-zero (c ∷ cs) = refl

offset-add :
    (cs : Text) (s k : ℕ)
    → s + k ≤ length cs
    → offset cs (s + k) ≡ offset cs s + offset (drop s cs) k
unfolding offset byte_offsets
offset-add cs zero k h =
    let none_first : 0 + k ≡ k = omega arith in rw (none_first, offset-zero cs) (omega arith)
offset-add [] (suc s) k h = absurd (omega arith)
offset-add (c ∷ cs) (suc s) k h =
    let whole = offset-suc c cs (s + k) (omega arith) in
    let start = offset-suc c cs s (omega arith) in
    let rest = offset-add cs s k (omega arith) in
    let moved : suc s + k ≡ suc (s + k) = omega arith in rw moved (omega arith)

to_byte-offset : (input : Text) (i : ℕ) → i ≤ length input → to_byte input i ≡ offset input i
unfolding to_byte offset
to_byte-offset input i h = omega (arith, offset-shift input 0 i (byte_len input) h)

-- Between the byte offsets of two character positions stand the characters between the positions.
pub byte_slice-to_byte :
    (input : Text) (s k : ℕ)
    → s + k ≤ length input
    → byte_slice input (to_byte input s) (to_byte input (s + k)) ≡ some (take k (drop s input))
unfolding byte_slice
byte_slice-to_byte input s k h =
    let start = to_byte-offset input s (omega arith) in
    let end = to_byte-offset input (s + k) h in
    let sum = offset-add input s k h in
    let width : offset input (s + k) - offset input s ≡ offset (drop s input) k = omega arith in
    let forward : ltb (offset input (s + k)) (offset input s) ≡ false = ground arith in
    let left : k ≤ length (drop s input) = omega (arith, length-drop s input) in
    rw (start, end, forward, suffix_at-offset input s (omega arith), width)
      (prefix_of-offset (drop s input) k left)

get_or-spans :
    (chars : Text) (caps : Caps) (n : ℕ)
    → get_or (spans chars caps) n none
      ≡ span chars (get_or caps (2 * n) none) (get_or caps (2 * n + 1) none)
unfolding spans
get_or-spans chars [] zero = refl
get_or-spans chars [] (suc n) = refl
get_or-spans chars (none ∷ []) zero = refl
get_or-spans chars (some s ∷ []) zero = refl
get_or-spans chars (s ∷ []) (suc n) =
    let even : 2 * suc n ≡ suc (suc (2 * n)) = omega arith in rw even refl
get_or-spans chars (s ∷ e ∷ caps) zero = refl
get_or-spans chars (s ∷ e ∷ caps) (suc n) =
    let even : 2 * suc n ≡ suc (suc (2 * n)) = omega arith in
    let odd : 2 * suc n + 1 ≡ suc (suc (2 * n + 1)) = omega arith in
    rw (odd, even) (get_or-spans chars caps n)

-- The text of a group whose slots hold two character positions of the text, in order, is the
-- characters between the positions.
pub group_text-build_match :
    (input : Text) (caps : Caps) (n s k : ℕ)
    → get_or caps (2 * n) none ≡ some s
    → get_or caps (2 * n + 1) none ≡ some (s + k)
    → s + k ≤ length input
    → group_text (build_match input caps) input n ≡ some (take k (drop s input))
unfolding group_text build_match
group_text-build_match input caps n s k from to h =
    rw (get_or-spans input caps n, from, to) (byte_slice-to_byte input s k h)
