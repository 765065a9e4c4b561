-- ===== src/Runtime/BigInt/Places.antt =====
-- crates/js-runtime/src/value.rs: `JsBigInt::from_literal` and the decimal places that it computes with.
use native.Mathlib.Nat.{pow-suc}
use justscript.Prelude.{
  ℕ, zero, suc, ◌+◌, ◌*◌, ◌/◌, ◌^◌, ◌≤◌, ◌<◌, ◌≡◌, refl, inl, inr, List, [], ◌∷◌, arith, Bool-cases,
  ◌==◌, All, u32, nat_eq, list_eq,
}
use justscript.Runtime.BigInt.{
  multiply_places, push_carry, carry_rounds, add_digit, pop_zeros, trim_places, keep_place,
}

-- The number that places stand for, least significant first.
abbrev pub value : List ℕ → ℕ
value [] = 0
value (d ∷ ds) = d + 10 * value ds

abbrev pub IsPlaces : List ℕ → Type 0
IsPlaces = All (λ d. d < 10)

pub push_carry_lem :
    (fuel carry : ℕ)
    → carry < 10 ^ fuel
    → (value (push_carry fuel carry) ≡ carry) × IsPlaces (push_carry fuel carry)
unfolding push_carry
push_carry_lem zero carry h = (omega arith, tt)
push_carry_lem (suc fuel) carry h = elim (Bool-cases (carry == 0)) [
  | inl e ↦ rw e (ground arith, tt)
  | inr e ↦
      let ih = push_carry_lem fuel (carry / 10) (omega (arith, pow-suc 10 fuel)) in
      rw e (omega (arith, ih.0), (omega arith, ih.1))
]

next_bound :
    (place radix carry : ℕ) → place < 10 → radix ≤ 16 → carry < 16 → place * radix + carry < 160
next_bound place radix carry h k l = grind arith

-- Adding a digit multiplies by the radix and adds it, and leaves decimal places.
pub add_digit_lem :
    (radix : ℕ) (places : List ℕ) (carry : ℕ)
    → radix ≤ 16
    → carry < 16
    → IsPlaces places
    → (value (add_digit radix places carry) ≡ radix * value places + carry)
      × IsPlaces (add_digit radix places carry)
unfolding add_digit multiply_places
add_digit_lem radix [] carry r c h =
    let (same, places) = push_carry_lem carry_rounds carry (omega arith) in
    (rw same (omega arith), places)
add_digit_lem radix (p ∷ ps) carry r c h =
    let bound = next_bound p radix carry h.0 r c in
    let next : ℕ = p * radix + carry in
    let (same, places) = add_digit_lem radix ps (u32 next / 10) r (omega arith) h.1 in
    (rw same (omega arith), (omega arith, places))

-- Canonical places: decimal, at least one, and no zero at the far end but in the first place.
abbrev IsTrimmed : List ℕ → Type 0
IsTrimmed [] = Unit
IsTrimmed (d ∷ []) = 0 < d
IsTrimmed (d ∷ e ∷ ds) = IsTrimmed (e ∷ ds)

keep_place_lem :
    (d : ℕ) (ds : List ℕ)
    → d < 10
    → IsPlaces ds
    → IsTrimmed ds
    → (value (keep_place d ds) ≡ d + 10 * value ds)
      × IsPlaces (keep_place d ds)
      × IsTrimmed (keep_place d ds)
unfolding keep_place
keep_place_lem d [] h places trimmed = elim (Bool-cases (d == 0)) [
  | inl e ↦ rw e (ground arith, tt, tt)
  | inr e ↦ rw e (refl, (h, tt), ground arith)
]
keep_place_lem d (e ∷ ds) h places trimmed = (refl, (h, places), trimmed)

pop_zeros_lem :
    (ds : List ℕ)
    → IsPlaces ds
    → (value (pop_zeros ds) ≡ value ds) × IsPlaces (pop_zeros ds) × IsTrimmed (pop_zeros ds)
unfolding pop_zeros
pop_zeros_lem [] h = (refl, tt, tt)
pop_zeros_lem (d ∷ ds) h =
    let rest = pop_zeros_lem ds h.1 in
    let kept = keep_place_lem d (pop_zeros ds) h.0 rest.1 rest.2 in
    (omega (arith, kept.0, rest.0), kept.1, kept.2)

value_pos : (d : ℕ) (ds : List ℕ) → IsTrimmed (d ∷ ds) → 0 < value (d ∷ ds)
value_pos d [] h = omega arith
value_pos d (e ∷ ds) h = omega (arith, value_pos e ds h)

IsTrimmed-tail : (d : ℕ) (ds : List ℕ) → IsTrimmed (d ∷ ds) → IsTrimmed ds
IsTrimmed-tail d [] h = tt
IsTrimmed-tail d (e ∷ ds) h = h

value-injective :
    (xs ys : List ℕ)
    → IsPlaces xs
    → IsPlaces ys
    → IsTrimmed xs
    → IsTrimmed ys
    → value xs ≡ value ys
    → xs ≡ ys
value-injective [] [] hx hy tx ty e = refl
value-injective [] (y ∷ ys) hx hy tx ty e = absurd (omega (arith, value_pos y ys ty))
value-injective (x ∷ xs) [] hx hy tx ty e = absurd (omega (arith, value_pos x xs tx))
value-injective (x ∷ xs) (y ∷ ys) hx hy tx ty e =
    let rest =
      value-injective xs ys hx.1 hy.1 (IsTrimmed-tail x xs tx) (IsTrimmed-tail y ys ty)
        (omega arith) in
    let first : x ≡ y = omega arith in cc

-- What `add_digits` leaves: decimal places, at least one.
abbrev pub IsNumber : List ℕ → Type 0
IsNumber [] = ⊥
IsNumber (d ∷ ds) = IsPlaces (d ∷ ds)

pub trim_places-injective :
    (xs ys : List ℕ)
    → IsNumber xs
    → IsNumber ys
    → value xs ≡ value ys
    → trim_places xs ≡ trim_places ys
unfolding trim_places
trim_places-injective [] ys hx hy e = absurd hx
trim_places-injective (x ∷ xs) [] hx hy e = absurd hy
trim_places-injective (x ∷ xs) (y ∷ ys) hx hy e =
    let a = pop_zeros_lem xs hx.1 in
    let b = pop_zeros_lem ys hy.1 in
    let rest =
      value-injective (pop_zeros xs) (pop_zeros ys) a.1 b.1 a.2 b.2 (omega (arith, a.0, b.0)) in
    let first : x ≡ y = omega arith in cc

pub value-trim_places : (xs : List ℕ) → IsNumber xs → value (trim_places xs) ≡ value xs
unfolding trim_places
value-trim_places [] h = absurd h
value-trim_places (x ∷ xs) h = omega (arith, (pop_zeros_lem xs h.1).0)
