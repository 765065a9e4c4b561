-- ===== src/Runtime/BigInt/Exact.antt =====
-- crates/js-runtime/src/value.rs: `JsBigInt::from_literal` keeps the value, in one spelling for each.
use mathlib.Core.Option
use mathlib.Core.Option.{some-injective}
use mathlib.Core.Path.{subst}
use mathlib.Core.List.{reverse-append, map-append}
use justscript.Prelude.{
  ℕ, ◌+◌, ◌-◌, ◌*◌, ◌≤◌, ◌<◌, ◌≡◌, refl, sym, ◌∙◌, inl, inr, Option, none, some, List, [], ◌∷◌,
  ◌++◌, arith, Option-cases, Text,
}
use justscript.Runtime.BigInt.Places.{
  value, IsPlaces, IsNumber, add_digit_lem, trim_places-injective, value-trim_places,
}
use justscript.Runtime.BigInt.{
  to_digit, multiply_places, add_digit, add_digits, trim_places, to_text, strip_n,
  remove_separators, split_radix, from_literal, JsBigInt,
}

pub to_digit-lt : (radix c : ℕ) {v : ℕ} → to_digit radix c ≡ some v → v < radix
unfolding to_digit
to_digit-lt radix c h = ground arith

-- The number that a digit string stands for in a radix, read from the left.
unfoldable pub radix_value : ℕ → ℕ → Text → Option ℕ
radix_value radix acc [] = some acc
radix_value radix acc (c ∷ cs) = elim (to_digit radix c) [
  | none ↦ none
  | some v ↦ radix_value radix (radix * acc + v) cs
]

add_digits-value :
    (radix : ℕ) (places : List ℕ) (digits : Text)
    → radix ≤ 16
    → IsPlaces places
    → Option.map value (add_digits radix places digits) ≡ radix_value radix (value places) digits
unfolding add_digits radix_value
add_digits-value radix places [] r h = refl
add_digits-value radix places (c ∷ cs) r h = elim (Option-cases (to_digit radix c)) [
  | inl e ↦ rw (e, add_digits, radix_value)
  | inr (v, e) ↦
      let step = add_digit_lem radix places v r (omega (arith, to_digit-lt radix c e)) h in
      rw (e, add_digits, radix_value, ← step.0)
        (add_digits-value radix (add_digit radix places v) cs r step.1)
]

add_digit-cons :
    (radix p : ℕ) (ps : List ℕ) (v : ℕ)
    → (q : ℕ) × (qs : List ℕ) × (add_digit radix (p ∷ ps) v ≡ q ∷ qs)
unfolding add_digit multiply_places
add_digit-cons radix p ps v = (_, _, refl)

add_digits-IsNumber :
    (radix d : ℕ) (ds : List ℕ) (digits : Text) {places : List ℕ}
    → radix ≤ 16
    → IsPlaces (d ∷ ds)
    → add_digits radix (d ∷ ds) digits ≡ some places
    → IsNumber places
unfolding add_digits
add_digits-IsNumber radix d ds [] {places} r h e =
    let same : (d ∷ ds) ≡ places = cc in subst IsNumber same h
add_digits-IsNumber radix d ds (c ∷ cs) r h e = elim (Option-cases (to_digit radix c)) [
  | inl n ↦ absurd (cc)
  | inr (v, n) ↦
      let (q, qs, shape) = add_digit-cons radix d ds v in
      let step = add_digit_lem radix (d ∷ ds) v r (omega (arith, to_digit-lt radix c n)) h in
      add_digits-IsNumber radix q qs cs r (rw shape at step.1) (rw (n, add_digits, shape) at e)
]

-- The number that a decimal text spells, read from the left behind `acc`.
abbrev pub read_decimal : ℕ → Text → ℕ
read_decimal acc [] = acc
read_decimal acc (c ∷ cs) = read_decimal (acc * 10 + (c - b'0')) cs

read_decimal-append :
    (acc : ℕ) (s t : Text) → read_decimal acc (s ++ t) ≡ read_decimal (read_decimal acc s) t
read_decimal-append acc [] t = refl
read_decimal-append acc (c ∷ cs) t = read_decimal-append (acc * 10 + (c - b'0')) cs t

read_decimal-to_text : (places : List ℕ) → read_decimal 0 (to_text places) ≡ value places
read_decimal-to_text [] = refl
read_decimal-to_text (d ∷ ds) =
    rw (reverse-append (d ∷ []) ds)
      (rw (map-append, read_decimal-append, read_decimal-to_text ds) (omega arith))

split_radix-le : (s : Text) → (split_radix s).0 ≤ 16
unfolding split_radix
split_radix-le (z ∷ x ∷ digits) = ground arith
split_radix-le (z ∷ []) = omega arith
split_radix-le [] = omega arith

-- The radix of a literal and its digits, with the suffix and the separators gone.
abbrev pub parts : Text → ℕ × Text
parts raw = split_radix (remove_separators (strip_n raw))

from_literal-parts :
    (raw : Text)
    → from_literal raw
      ≡ Option.map
          (λ decimal. to_text (trim_places decimal))
          (add_digits (parts raw).0 (0 ∷ []) (parts raw).1)
unfolding from_literal
from_literal-parts raw = refl

is_number :
    (raw : Text) {places : List ℕ}
    → add_digits (parts raw).0 (0 ∷ []) (parts raw).1 ≡ some places
    → IsNumber places
is_number raw e =
    add_digits-IsNumber (parts raw).0 0 [] (parts raw).1 (split_radix-le _) (omega arith) e

from_literal_places :
    (raw : Text) {b : JsBigInt}
    → from_literal raw ≡ some b
    → (places : List ℕ) × IsNumber places
      × (b ≡ to_text (trim_places places))
      × (radix_value (parts raw).0 0 (parts raw).1 ≡ some (value places))
from_literal_places raw {b} h =
    let (r, ds) = parts raw in
    let spec = add_digits-value r (0 ∷ []) ds (split_radix-le _) (omega arith) in
    elim (Option-cases (add_digits r (0 ∷ []) ds)) [
      | inl e ↦ absurd (cc (rw (from_literal-parts, e) at h))
      | inr (places, e) ↦
          let k : some (to_text (trim_places places)) ≡ some b = rw (from_literal-parts, e) at h in
          (places, is_number raw e, cc, sym (rw e at spec))
    ]

-- The conversion is exact: the decimal text spells the number that the digits of the literal stand
-- for in its radix; and it panics just where a digit is not one of the radix.
pub from_literal-value :
    (raw : Text)
    → Option.map (read_decimal 0) (from_literal raw) ≡ radix_value (parts raw).0 0 (parts raw).1
from_literal-value raw =
    let (r, ds) = parts raw in
    let spec = add_digits-value r (0 ∷ []) ds (split_radix-le _) (omega arith) in
    elim (Option-cases (add_digits r (0 ∷ []) ds)) [
      | inl e ↦ rw (from_literal-parts, e) (rw e at spec)
      | inr (places, e) ↦
          rw
            (
              from_literal-parts,
              e,
              read_decimal-to_text,
              value-trim_places places (is_number raw e),
            )
            (rw e at spec)
    ]

-- Two literals that convert and stand for one number have one text, whatever their radix, leading
-- zeros and separators.
from_literal-injective :
    (raw raw' : Text) {b b' : JsBigInt}
    → from_literal raw ≡ some b
    → from_literal raw' ≡ some b'
    → radix_value (parts raw).0 0 (parts raw).1 ≡ radix_value (parts raw').0 0 (parts raw').1
    → b ≡ b'
from_literal-injective raw raw' {b} {b'} e e' same =
    let (places, n, text, v) = from_literal_places raw e in
    let (places', n', text', v') = from_literal_places raw' e' in
    let values : value places ≡ value places' = some-injective _ _ (sym v ∙ same ∙ v') in
    cc (trim_places-injective places places' n n' values)
