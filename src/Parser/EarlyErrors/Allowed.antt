-- ===== src/Parser/EarlyErrors/Allowed.antt =====
-- crates/js-parser/src/early_errors.rs: which lists of declared names the check lets pass.
use justscript.Prelude.{
  ◌≡◌, refl, sym, ap, ◌∙◌, ◌↔◌, inl, inr, Bool, some, List, [], ◌∷◌, arith, Bool-cases, ◌==◌,
  list_beq_iff, length, All, Map, lookup, insert, lookup-insert, lookup-insert_cases, Text, nat_eq,
  list_eq,
}
use mathlib.Core.Path.{subst}
use justscript.Syntax.Source.{Span}
use justscript.Parser.EarlyErrors.{Checker, LexicalName, check_statement_list_names}
use justscript.Parser.EarlyErrors.Names.{
  IsPair, IsAllowed, PairsUp, IsClear, check_names-IsClear, check_names_lem,
}

lookup-same :
    (d e : LexicalName) (seen : Map Text Bool)
    → d.name ≡ e.name
    → lookup e.name (insert d.name d.ordinary_function seen) ≡ some d.ordinary_function
lookup-same d e seen same = rw (lookup-insert, (list_beq_iff d.name e.name).1 same) refl

-- A declaration behind `d` fits exactly if it fits without `d` and makes a pair with `d`.
later_fits :
    (s : Bool) (seen : Map Text Bool) (d e : LexicalName)
    → PairsUp s seen d
    → PairsUp s (insert d.name d.ordinary_function seen) e
    → PairsUp s seen e × (d.name ≡ e.name → IsPair s d e)
later_fits s seen d e fits h =
    let pair : d.name ≡ e.name → IsPair s d e =
      λ same. h d.ordinary_function (lookup-same d e seen same) in
    (
      λ p there. elim (Bool-cases (d.name == e.name)) [
        | inl same ↦
            let names = (list_beq_iff d.name e.name).0 same in
            let before : lookup d.name seen ≡ some p =
              subst (λ n. lookup n seen ≡ some p) (sym names) there in
            let (sloppy, first, second) = pair names in (sloppy, (fits p before).1, second)
        | inr other ↦ h p (rw (lookup-insert, other) there)
      ],
      pair,
    )

fits_later :
    (s : Bool) (seen : Map Text Bool) (d e : LexicalName)
    → PairsUp s seen e
    → (d.name ≡ e.name → IsPair s d e)
    → PairsUp s (insert d.name d.ordinary_function seen) e
fits_later s seen d e fits pair p there =
    elim (lookup-insert_cases d.name e.name d.ordinary_function p seen there) [
      | inl old ↦ fits p old
      | inr (same, is_d) ↦ let (sloppy, first, second) = pair same in (sloppy, is_d ∙ first, second)
    ]

all_later_fit :
    (s : Bool) (seen : Map Text Bool) (d : LexicalName) (es : List LexicalName)
    → PairsUp s seen d
    → All (PairsUp s (insert d.name d.ordinary_function seen)) es
    → All (PairsUp s seen) es × All (λ e. d.name ≡ e.name → IsPair s d e) es
all_later_fit s seen d [] fits h = (tt, tt)
all_later_fit s seen d (e ∷ es) fits (one, h) =
    let (old, pair) = later_fits s seen d e fits one in
    let (olds, pairs) = all_later_fit s seen d es fits h in ((old, olds), (pair, pairs))

all_fit_later :
    (s : Bool) (seen : Map Text Bool) (d : LexicalName) (es : List LexicalName)
    → All (PairsUp s seen) es
    → All (λ e. d.name ≡ e.name → IsPair s d e) es
    → All (PairsUp s (insert d.name d.ordinary_function seen)) es
all_fit_later s seen d [] h k = tt
all_fit_later s seen d (e ∷ es) (old, h) (pair, k) =
    (fits_later s seen d e old pair, all_fit_later s seen d es h k)

IsClear-IsAllowed :
    (s : Bool) (vars : Map Text (Unit {0})) (seen : Map Text Bool) (ds : List LexicalName)
    → IsClear s vars seen ds
    → All (PairsUp s seen) ds × IsAllowed s vars ds
IsClear-IsAllowed s vars seen [] h = (tt, tt)
IsClear-IsAllowed s vars seen (d ∷ rest) (fits, free, h) =
    let (later, allowed) =
      IsClear-IsAllowed s vars (insert d.name d.ordinary_function seen) rest h in
    let (olds, pairs) = all_later_fit s seen d rest fits later in
    ((fits, olds), (free, pairs, allowed))

IsAllowed-IsClear :
    (s : Bool) (vars : Map Text (Unit {0})) (seen : Map Text Bool) (ds : List LexicalName)
    → All (PairsUp s seen) ds
    → IsAllowed s vars ds
    → IsClear s vars seen ds
IsAllowed-IsClear s vars seen [] h k = tt
IsAllowed-IsClear s vars seen (d ∷ rest) (fits, olds) (free, pairs, allowed) = (
  fits,
  free,
  IsAllowed-IsClear s vars (insert d.name d.ordinary_function seen) rest
      (all_fit_later s seen d rest olds pairs) allowed,
)

all_fit_first : (s : Bool) (ds : List LexicalName) → All (PairsUp s []) ds
unfolding lookup
all_fit_first s [] = tt
all_fit_first s (d ∷ rest) = (λ p e. absurd (cc), all_fit_first s rest)

-- The check of a statement list reports no error exactly if no variable of the list has a lexically
-- declared name, and two lexical declarations of one name are both ordinary functions, in sloppy code.
pub check_statement_list_names_iff :
    (lexical : List LexicalName) (vars : Map Text (Unit {0})) (span : Span) (c : Checker)
    → ((check_statement_list_names lexical vars span c).errors ≡ c.errors)
      ↔ IsAllowed c.is_strict vars lexical
unfolding check_statement_list_names
check_statement_list_names_iff lexical vars span c = (
  λ e.
      (IsClear-IsAllowed c.is_strict vars [] lexical
        (check_names-IsClear span vars [] lexical c (omega (arith, ap length e)))).1,
  λ allowed.
      ap (λ c. c.errors)
        (check_names_lem span vars [] lexical c (
          IsAllowed-IsClear c.is_strict vars [] lexical (all_fit_first c.is_strict lexical)
            allowed)),
)
