-- ===== src/Parser/EarlyErrors/Names.antt =====
-- crates/js-parser/src/early_errors.rs: what the check of a statement list reports, declaration by
-- declaration.
use justscript.Prelude.{
  ◌≤◌, ◌≡◌, refl, sym, ◌∙◌, ◌↔◌, Bool, true, false, not, ◌&&◌, Option, none, some, List, [], ◌∷◌,
  arith, length, All, length-append, Map, lookup, insert, Text, nat_eq, list_eq,
}
use mathlib.Core.Option.{some-injective}
use justscript.Syntax.Source.{Span}
use justscript.Parser.EarlyErrors.{Checker, LexicalName, is_some, clashes, error_if, check_names}

-- The two declarations of one name may stand in one list: two ordinary functions, in sloppy code.
abbrev pub IsPair : Bool → LexicalName → LexicalName → Type 0
IsPair is_strict d e =
    (is_strict ≡ false) × (d.ordinary_function ≡ true) × (e.ordinary_function ≡ true)

-- No variable has a lexically declared name, and only such pairs declare a name twice.
abbrev pub IsAllowed : Bool → Map Text (Unit {0}) → List LexicalName → Type 0
IsAllowed is_strict vars [] = Unit
IsAllowed is_strict vars (d ∷ rest) =
    (lookup d.name vars ≡ none)
    × All (λ e. d.name ≡ e.name → IsPair is_strict d e) rest
    × IsAllowed is_strict vars rest

-- The declaration `d` makes a pair with the declaration of its name that is in `seen`.
abbrev pub PairsUp : Bool → Map Text Bool → LexicalName → Type 0
PairsUp is_strict seen d =
    (previous : Bool)
    → lookup d.name seen ≡ some previous
    → (is_strict ≡ false) × (previous ≡ true) × (d.ordinary_function ≡ true)

-- What the loop asks of the declarations that are left.
abbrev pub IsClear : Bool → Map Text (Unit {0}) → Map Text Bool → List LexicalName → Type 0
IsClear is_strict vars seen [] = Unit
IsClear is_strict vars seen (d ∷ rest) =
    PairsUp is_strict seen d
    × (lookup d.name vars ≡ none)
    × IsClear is_strict vars (insert d.name d.ordinary_function seen) rest

pair_iff :
    (s p o : Bool) → (not (not s && p && o) ≡ false) ↔ ((s ≡ false) × (p ≡ true) × (o ≡ true))
pair_iff false true true = ground arith
pair_iff false true false = ground arith
pair_iff false false o = ground arith
pair_iff true p o = ground arith

clashes_iff :
    (is_strict : Bool) (seen : Option Bool) (ordinary : Bool)
    → (clashes is_strict seen ordinary ≡ false) ↔ (
        (previous : Bool)
        → seen ≡ some previous
        → (is_strict ≡ false) × (previous ≡ true) × (ordinary ≡ true))
clashes_iff is_strict none ordinary = (λ _ p e. absurd (cc), λ _. refl)
clashes_iff is_strict (some p) ordinary = (
  λ e q f.
      let (sloppy, first, second) = (pair_iff is_strict p ordinary).0 e in
      (sloppy, sym (some-injective _ _ f) ∙ first, second),
  λ h. (pair_iff is_strict p ordinary).1 (h p refl),
)

is_some-none : {A : Type 0} → (o : Option A) → (is_some o ≡ false) ↔ (o ≡ none)
is_some-none none = (λ _. refl, λ _. refl)
is_some-none (some x) = ground arith

length-error_if :
    (b : Bool) (span : Span) (name : Text) (c : Checker)
    → (length c.errors ≤ length (error_if b span name c).errors)
      × (length (error_if b span name c).errors ≤ length c.errors → b ≡ false)
length-error_if false span name c = (omega arith, λ _. refl)
length-error_if true span name c =
    let grown = length-append c.errors ((span, name) ∷ []) in
    (omega (arith, grown), λ h. absurd (omega (arith, grown)))

length-check_names :
    (span : Span) (vars : Map Text (Unit {0})) (seen : Map Text Bool) (ds : List LexicalName)
    (c : Checker)
    → length c.errors ≤ length (check_names span vars seen ds c).errors
unfolding check_names
length-check_names span vars seen [] c = omega arith
length-check_names span vars seen (d ∷ rest) c =
    let clash = clashes c.is_strict (lookup d.name seen) d.ordinary_function in
    let is_var = is_some (lookup d.name vars) in
    let c1 = error_if clash span d.name c in
    let first = (length-error_if clash span d.name c).0 in
    let second = (length-error_if is_var span d.name c1).0 in
    omega (
      arith,
      first,
      second,
      length-check_names span vars (insert d.name d.ordinary_function seen) rest
          (error_if is_var span d.name c1),
    )

-- A declaration with nothing to report leaves the checker as it is.
check_names-step :
    (span : Span) (vars : Map Text (Unit {0})) (seen : Map Text Bool) (d : LexicalName)
    (rest : List LexicalName) (c : Checker)
    → clashes c.is_strict (lookup d.name seen) d.ordinary_function ≡ false
    → is_some (lookup d.name vars) ≡ false
    → check_names span vars seen (d ∷ rest) c
      ≡ check_names span vars (insert d.name d.ordinary_function seen) rest c
unfolding check_names
check_names-step span vars seen d rest c fits free = rw (fits, free) refl

pub check_names_lem :
    (span : Span) (vars : Map Text (Unit {0})) (seen : Map Text Bool) (ds : List LexicalName)
    (c : Checker)
    → IsClear c.is_strict vars seen ds
    → check_names span vars seen ds c ≡ c
unfolding check_names
check_names_lem span vars seen [] c h = refl
check_names_lem span vars seen (d ∷ rest) c (fits, free, h) =
    check_names-step span vars seen d rest c
      ((clashes_iff c.is_strict _ d.ordinary_function).1 fits)
      ((is_some-none (lookup d.name vars)).1 free)
    ∙ check_names_lem span vars (insert d.name d.ordinary_function seen) rest c h

pub check_names-IsClear :
    (span : Span) (vars : Map Text (Unit {0})) (seen : Map Text Bool) (ds : List LexicalName)
    (c : Checker)
    → length (check_names span vars seen ds c).errors ≤ length c.errors
    → IsClear c.is_strict vars seen ds
unfolding check_names
check_names-IsClear span vars seen [] c h = tt
check_names-IsClear span vars seen (d ∷ rest) c h =
    let clash = clashes c.is_strict (lookup d.name seen) d.ordinary_function in
    let is_var = is_some (lookup d.name vars) in
    let c1 = error_if clash span d.name c in
    let c2 = error_if is_var span d.name c1 in
    let first = length-error_if clash span d.name c in
    let second = length-error_if is_var span d.name c1 in
    let later = length-check_names span vars (insert d.name d.ordinary_function seen) rest c2 in
    let whole : length
          (check_names span vars (insert d.name d.ordinary_function seen) rest c2).errors
        ≤ length c.errors =
      h in
    let below : length c2.errors ≤ length c.errors = omega (arith, later, whole) in
    let fits = first.1 (omega (arith, second.0, below)) in
    let free = second.1 (omega (arith, first.0, below)) in
    (
      (clashes_iff c.is_strict (lookup d.name seen) d.ordinary_function).0 fits,
      (is_some-none (lookup d.name vars)).0 free,
      check_names-IsClear span vars (insert d.name d.ordinary_function seen) rest c
          (rw (check_names-step span vars seen d rest c fits free) at h),
    )
