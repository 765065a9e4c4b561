-- ===== src/Bytecode/Scopes/Tests.antt =====
-- Runs of the scopes of crates/js-bytecode/src/compiler.rs on three nested functions.
use mathlib.Core.Option
use justscript.Prelude.{◌≡◌, refl, some, List, [], ◌∷◌, arith, lookup, Text, codes, nat_eq, list_eq}
use justscript.Bytecode.Scopes.{
  Scope, VarRef, upvalue, resolve_var, add_upvalue, resolve_upvalue, position,
}
use justscript.Bytecode.Scopes.Lexical.{IsFaithful, lexical}
use justscript.Bytecode.Scopes.Variables.{place, resolve_var_lem}

abbrev x : Text
x = codes "x"

-- A function that declares nothing.
abbrev bare : Scope
bare = record { locals = []; upvalues = [] }

-- The outermost function, with `x` in slot 2.
abbrev main : Scope
main = record { locals = (x, 2) ∷ []; upvalues = [] }

resolve_var-x : Option.map (λ r. r.0) (resolve_var x (bare ∷ bare ∷ main ∷ [])) ≡ some (upvalue 0)
unfolding resolve_var resolve_upvalue add_upvalue position lookup
resolve_var-x = refl

resolve_var_lem_example :
    (ref : VarRef) × (scopes : List Scope) × (resolve_var x (bare ∷ bare ∷ main ∷ [])
      ≡ some (ref, scopes))
    × (place ref scopes ≡ lexical x (bare ∷ bare ∷ main ∷ []))
    × IsFaithful scopes
resolve_var_lem_example =
    resolve_var_lem x bare (bare ∷ main ∷ []) (omega arith, (omega arith, (omega arith, tt)))
      (tt, (tt, (tt, tt)))
