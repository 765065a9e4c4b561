-- ===== src/Parser/EarlyErrors/Separate.antt =====
-- crates/js-parser/src/early_errors.rs: no scope has a name both ways.
use mathlib.Core.Path.{subst}
use justscript.Prelude.{
  ◌≡◌, refl, Bool, true, some, List, [], ◌∷◌, ◌++◌, drop, All, lookup, Text, nat_eq, list_eq,
}
use justscript.Syntax.Source.{Span}
use justscript.Parser.EarlyErrors.{
  Scope, Checker, enter, leave, new, declare_lexical_kind, declare_var, declare_params,
}
use justscript.Parser.EarlyErrors.Declared.{
  IsSeparate, AllSeparate, SeparateAfter, declare_top-SeparateAfter, declare_var-SeparateAfter,
}
use justscript.Parser.EarlyErrors.Params.{enter_function-SeparateAfter}

-- What the walk over the tree does to the scopes and to what their operations read: a scope is
-- entered, a function's with its parameters, or left, a name is declared, the strictness changes, or
-- other errors are reported.
pub data Step : Checker → Checker → Type 0 where
  entered : (is_function : Bool) (c : Checker) → Step c (enter is_function c)
  entered_function :
      (params : List (List Text)) (c c' : Checker)
      → declare_params params (enter true c) ≡ some c'
      → Step c c'
  left : (c : Checker) → Step c (leave c)
  declared_lexical :
      (name : Text) (span : Span) (ordinary : Bool) (c c' : Checker)
      → declare_lexical_kind name span ordinary c ≡ some c'
      → Step c c'
  declared_var :
      (name : Text) (span : Span) (c c' : Checker) → declare_var name span c ≡ some c' → Step c c'
  changed_strict : (is_strict : Bool) (c : Checker) → Step c (record c { is_strict = is_strict })
  reported :
      (more : List (Span × Text)) (c : Checker) → Step c (record c { errors = c.errors ++ more })

pub data Steps : Checker → Checker → Type 0 where
  none_left : (c : Checker) → Steps c c
  then_steps : {c c' c'' : Checker} → Step c c' → Steps c' c'' → Steps c c''

leave-AllSeparate : (scopes : List Scope) → All IsSeparate scopes → All IsSeparate (drop 1 scopes)
leave-AllSeparate [] h = tt
leave-AllSeparate (s ∷ outer) h = h.1

new-IsSeparate : (is_function : Bool) → IsSeparate (new is_function)
unfolding lookup
new-IsSeparate is_function name e = refl

Step-AllSeparate : {c c' : Checker} → Step c c' → AllSeparate c.scopes → AllSeparate c'.scopes
unfolding AllSeparate enter leave declare_lexical_kind
Step-AllSeparate (entered is_function c) h = (new-IsSeparate is_function, h)
Step-AllSeparate (entered_function params c c' e) h =
    subst SeparateAfter e (enter_function-SeparateAfter params c h)
Step-AllSeparate (changed_strict is_strict c) h = h
Step-AllSeparate (reported more c) h = h
Step-AllSeparate (left c) h = leave-AllSeparate c.scopes h
Step-AllSeparate (declared_lexical name span ordinary c c' e) h =
    subst SeparateAfter e (declare_top-SeparateAfter name span ordinary c c.scopes refl h)
Step-AllSeparate (declared_var name span c c' e) h =
    subst SeparateAfter e (declare_var-SeparateAfter name span c h)

-- If no scope has a name both as a lexical declaration and as a variable, none comes to, however
-- scopes are entered, a function's with the declaration of its parameters, and left, names are
-- declared, the strictness changes and errors are reported.
pub Steps-AllSeparate : {c c' : Checker} → Steps c c' → AllSeparate c.scopes → AllSeparate c'.scopes
Steps-AllSeparate (none_left c) h = h
Steps-AllSeparate (then_steps one rest) h = Steps-AllSeparate rest (Step-AllSeparate one h)
