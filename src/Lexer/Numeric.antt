-- ===== src/Lexer/Numeric.antt =====
-- crates/js-lexer/src/validate.rs: the well-formedness of numeric literals.
pub mod Separators
use justscript.Prelude.{
  ℕ, Bool, true, false, not, ◌&&◌, ◌||◌, Option, none, some, [], ◌∷◌, if◌then◌else◌, ◌==◌, Text,
  nat_eq, list_eq,
}
use justscript.Runtime.BigInt.{to_digit}

pub data NumericError : Type 0 where
  bad_separator big_int_fractional big_int_leading_zero empty : NumericError

pub data Validity : Type 0 where
  ok : Validity
  err : NumericError → Validity

unfoldable pub contains : ℕ → Text → Bool
contains c [] = false
contains c (d ∷ ds) = d == c || contains c ds

-- `strip_suffix('n')`
unfoldable pub strip_bigint : Text → Bool × Text
strip_bigint [] = (false, [])
strip_bigint (c ∷ []) = if c == b'n' then (true, []) else (false, c ∷ [])
strip_bigint (c ∷ d ∷ cs) = let (is_bigint, body) = strip_bigint (d ∷ cs) in (is_bigint, c ∷ body)

unfoldable pub radix_prefix : Text → Option (ℕ × Text)
radix_prefix (z ∷ x ∷ rest) =
    if z == b'0' && (x == b'x' || x == b'X')
    then some (16, rest)
    else if z == b'0' && (x == b'b' || x == b'B')
    then some (2, rest)
    else if z == b'0' && (x == b'o' || x == b'O')
    then some (8, rest)
    else none
radix_prefix s = none

-- `c.is_digit(radix)`
unfoldable pub is_digit : ℕ → ℕ → Bool
unfolding to_digit
is_digit radix c = elim (to_digit radix c) [ none ↦ false | some v ↦ true ]

unfoldable pub strip_underscores : Text → Text
strip_underscores [] = []
strip_underscores (c ∷ cs) = let rest = strip_underscores cs in if c == b'_' then rest else c ∷ rest

abbrev pub starts_zero : Text → Bool
starts_zero (c ∷ d ∷ cs) = c == b'0'
starts_zero _ = false

unfoldable pub has_leading_zero : Text → Bool
unfolding strip_underscores
has_leading_zero body = starts_zero (strip_underscores body)

abbrev pub digit_first : (ℕ → Bool) → Text → Bool
digit_first digit [] = false
digit_first digit (c ∷ cs) = digit c

-- The loop over the characters; `previous` says whether the one in front is a digit.
unfoldable pub separators_from : (ℕ → Bool) → Bool → Text → Bool
separators_from digit previous [] = true
separators_from digit previous (c ∷ cs) =
    let rest = separators_from digit (digit c) cs in
    if c == b'_' then (previous && digit_first digit cs) && rest else rest

unfoldable pub separators_ok : (ℕ → Bool) → Text → Bool
unfolding separators_from
separators_ok digit s = separators_from digit false s

-- The text in front of the first character that satisfies the predicate, and what follows it.
unfoldable pub split_at : (ℕ → Bool) → Text → Text × Option Text
split_at at [] = ([], none)
split_at at (c ∷ cs) =
    let (before, after) = split_at at cs in if at c then ([], some cs) else (c ∷ before, after)

-- `strip_prefix('+').or_else(|| strip_prefix('-')).unwrap_or(exp)`
abbrev pub strip_sign : Text → Text
strip_sign [] = []
strip_sign (c ∷ cs) = if c == b'+' || c == b'-' then cs else c ∷ cs

abbrev pub is_empty : Text → Bool
is_empty [] = true
is_empty (c ∷ cs) = false

-- Whether a part that may be missing satisfies the test.
abbrev pub part_ok : (Text → Bool) → Option Text → Bool
part_ok test none = true
part_ok test (some s) = test s

abbrev pub validate_exponent : (ℕ → Bool) → Option Text → Validity
validate_exponent digit none = ok
validate_exponent digit (some exp) =
    if is_empty (strip_sign exp)
    then err empty
    else if separators_ok digit (strip_sign exp)
    then ok
    else err bad_separator

unfoldable pub validate_decimal : Text → Bool → Validity
unfolding contains has_leading_zero split_at strip_underscores separators_ok is_digit
validate_decimal body is_bigint =
    let digit = is_digit 10 in
    let (mantissa, exponent) = split_at (λ c. c == b'e' || c == b'E') body in
    let (int_part, frac_part) = split_at (λ c. c == b'.') mantissa in
    if is_bigint && (contains b'.' body || contains b'e' body || contains b'E' body)
    then err big_int_fractional
    else if is_bigint && has_leading_zero body
    then err big_int_leading_zero
    else if contains b'_' int_part && has_leading_zero int_part
    then err bad_separator
    else if is_empty (strip_underscores int_part)
        && part_ok (λ f. is_empty (strip_underscores f)) frac_part
    then err empty
    else if not (separators_ok digit int_part)
    then err bad_separator
    else if not (part_ok (separators_ok digit) frac_part)
    then err bad_separator
    else validate_exponent digit exponent

unfoldable pub validate_numeric_literal : Text → Validity
unfolding strip_bigint radix_prefix separators_ok is_digit validate_decimal
validate_numeric_literal raw =
    let (is_bigint, body) = strip_bigint raw in
    elim (radix_prefix body) [
      | none ↦ validate_decimal body is_bigint
      | some (radix, digits) ↦
          if is_empty digits
          then err empty
          else if separators_ok (is_digit radix) digits
          then ok
          else err bad_separator
    ]
