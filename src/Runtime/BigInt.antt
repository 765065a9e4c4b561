-- ===== src/Runtime/BigInt.antt =====
-- crates/js-runtime/src/value.rs: `JsBigInt::from_literal`, from the digits of a literal in radix 2, 8,
-- 10 or 16 to decimal digits. Places are kept least significant first.
mod Places
pub mod Exact
use mathlib.Core.Option
use mathlib.Core.List.{reverse}
use justscript.Prelude.{
  ℕ, zero, suc, ◌+◌, ◌-◌, ◌*◌, ◌/◌, ◌%◌, ◌&&◌, ◌||◌, Option, none, some, List, [], ◌∷◌, ◌++◌, map,
  ltb, leb, if◌then◌else◌, ◌==◌, Text, u32, nat_eq, list_eq,
}

-- A `JsBigInt` is its decimal text.
abbrev pub JsBigInt : Type 0
JsBigInt = Text

-- `char::to_digit`
unfoldable pub to_digit : ℕ → ℕ → Option ℕ
to_digit radix c =
    let value : ℕ =
      if leb b'0' c && leb c b'9'
      then c - b'0'
      else if leb b'a' c && leb c b'z'
      then c - b'a' + 10
      else if leb b'A' c && leb c b'Z'
      then c - b'A' + 10
      else 36 in
    if ltb value radix then some value else none

-- `strip_suffix('n').unwrap_or(raw)`
unfoldable pub strip_n : Text → Text
strip_n [] = []
strip_n (c ∷ []) = if c == b'n' then [] else c ∷ []
strip_n (c ∷ d ∷ cs) = c ∷ strip_n (d ∷ cs)

-- `replace('_', "")`
unfoldable pub remove_separators : Text → Text
remove_separators [] = []
remove_separators (c ∷ cs) = let rest = remove_separators cs in if c == b'_' then rest else c ∷ rest

-- The radix that the prefix announces and what follows the prefix.
unfoldable pub split_radix : Text → ℕ × Text
split_radix (z ∷ x ∷ digits) =
    if z == b'0' && (x == b'x' || x == b'X')
    then (16, digits)
    else if z == b'0' && (x == b'o' || x == b'O')
    then (8, digits)
    else if z == b'0' && (x == b'b' || x == b'B')
    then (2, digits)
    else (10, z ∷ x ∷ digits)
split_radix cleaned = (10, cleaned)

-- `for place in &mut decimal`: the places multiplied by the radix, and the carry that is left.
unfoldable pub multiply_places : ℕ → List ℕ → ℕ → List ℕ × ℕ
multiply_places radix [] carry = ([], carry)
multiply_places radix (place ∷ places) carry =
    let next = u32 (place * radix + carry) in
    let (rest, left) = multiply_places radix places (next / 10) in (next % 10 ∷ rest, left)

-- `while carry != 0`: a carry below 10 ^ n is written in n rounds.
unfoldable pub push_carry : ℕ → ℕ → List ℕ
push_carry zero carry = []
push_carry (suc fuel) carry =
    let rest = push_carry fuel (carry / 10) in if carry == 0 then [] else carry % 10 ∷ rest

-- Ten rounds write any `u32`.
abbrev pub carry_rounds : ℕ
carry_rounds = 10

unfoldable pub add_digit : ℕ → List ℕ → ℕ → List ℕ
add_digit radix decimal value =
    let (places, carry) = multiply_places radix decimal value in
    places ++ push_carry carry_rounds carry

-- `for digit in digits.chars()`
unfoldable pub add_digits : ℕ → List ℕ → Text → Option (List ℕ)
add_digits radix decimal [] = some decimal
add_digits radix decimal (c ∷ cs) = elim (to_digit radix c) [
  | none ↦ none
  | some value ↦ add_digits radix (add_digit radix decimal value) cs
]

-- A place stays if it is not zero or if a place behind it stays.
unfoldable pub keep_place : ℕ → List ℕ → List ℕ
keep_place place [] = if place == 0 then [] else place ∷ []
keep_place place (next ∷ more) = place ∷ next ∷ more

-- Zeros at the far end of the vector go.
unfoldable pub pop_zeros : List ℕ → List ℕ
pop_zeros [] = []
pop_zeros (place ∷ places) = keep_place place (pop_zeros places)

-- `while decimal.len() > 1 && decimal.last() == Some(&0)`: the first place always stays.
unfoldable pub trim_places : List ℕ → List ℕ
unfolding pop_zeros
trim_places [] = []
trim_places (place ∷ places) = place ∷ pop_zeros places

abbrev pub to_text : List ℕ → JsBigInt
to_text places = map (λ digit. b'0' + digit) (reverse places)

-- `none` is the panic on a digit outside the radix.
unfoldable pub from_literal : Text → Option JsBigInt
unfolding strip_n remove_separators split_radix add_digits add_digit to_digit multiply_places
    push_carry trim_places keep_place
from_literal raw =
    let (radix, digits) = split_radix (remove_separators (strip_n raw)) in
    Option.map (λ decimal. to_text (trim_places decimal)) (add_digits radix (0 ∷ []) digits)
