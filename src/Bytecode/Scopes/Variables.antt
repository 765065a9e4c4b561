-- ===== src/Bytecode/Scopes/Variables.antt =====
-- crates/js-bytecode/src/compiler.rs: `resolve_var` against the lexical rule.
use mathlib.Core.Option
use mathlib.Core.Option.{some-injective}
use justscript.Prelude.{
  ℕ, ◌≡◌, refl, sym, ap, ◌∙◌, inl, inr, Option, none, some, List, ◌∷◌, Option-cases, lookup, Text,
  nat_eq, list_eq,
}
use justscript.Bytecode.Scopes.{Scope, resolve_upvalue, resolve_var, VarRef, local, upvalue, global}
use justscript.Bytecode.Scopes.Lexical.{Place, outward, lexical, follow, IsFaithful}
use justscript.Bytecode.Scopes.Resolve.{
  HasRoom, resolve_upvalue_lem, lexical-found, lexical-further,
}

-- The variable that a reference in the innermost function means.
abbrev pub place : VarRef → List Scope → Option Place
place (local slot) scopes = some (0, slot)
place (upvalue i) scopes = Option.map outward (follow scopes i)
place global scopes = none

resolve_local :
    (name : Text) (s : Scope) (outer : List Scope) (slot : ℕ)
    → lookup name s.locals ≡ some slot
    → resolve_var name (s ∷ outer) ≡ some (local slot, s ∷ outer)
unfolding resolve_var
resolve_local name s outer slot e = rw (e, resolve_var) refl

resolve_global :
    (name : Text) (s : Scope) (outer : List Scope)
    → lookup name s.locals ≡ none
    → resolve_upvalue name s outer ≡ none
    → resolve_var name (s ∷ outer) ≡ some (global, s ∷ outer)
unfolding resolve_var
resolve_global name s outer missed e = rw (missed, resolve_var, e) refl

resolve_captured :
    (name : Text) (s s' : Scope) (outer outer' : List Scope) (uv : ℕ)
    → lookup name s.locals ≡ none
    → resolve_upvalue name s outer ≡ some (uv, s', outer')
    → resolve_var name (s ∷ outer) ≡ some (upvalue uv, s' ∷ outer')
unfolding resolve_var
resolve_captured name s s' outer outer' uv missed e = rw (missed, resolve_var, e) refl

-- While every function has room for an upvalue and every captured variable is the one that the
-- lexical rule gives, a name resolves to the variable of the innermost function that declares it:
-- to a local, or to an upvalue that leads there through the functions between. It is global only if
-- no function declares it. Captured variables stay the ones that the lexical rule gives.
pub resolve_var_lem :
    (name : Text) (current : Scope) (outer : List Scope)
    → HasRoom (current ∷ outer)
    → IsFaithful (current ∷ outer)
    → (ref : VarRef) × (scopes : List Scope) × (resolve_var name (current ∷ outer)
        ≡ some (ref, scopes))
      × (place ref scopes ≡ lexical name (current ∷ outer))
      × IsFaithful scopes
resolve_var_lem name current outer room faithful =
    let captured = resolve_upvalue_lem name current outer room faithful in
    elim (Option-cases (lookup name current.locals)) [
      | inr (slot, found) ↦ (
        local slot,
        current ∷ outer,
        resolve_local name current outer slot found,
        sym (lexical-found name current outer slot found),
        faithful,
      )
      | inl missed ↦
          let further = lexical-further name current outer missed in
          elim (Option-cases (resolve_upvalue name current outer)) [
            | inl lost ↦ (
              global,
              current ∷ outer,
              resolve_global name current outer missed lost,
              sym (further ∙ ap (Option.map outward) (rw lost at captured)),
              faithful,
            )
            | inr ((uv, current', outer'), e) ↦
                let (p, l, at, faithful', same, g) = rw e at captured in
                (
                  upvalue uv,
                  current' ∷ outer',
                  resolve_captured name current current' outer outer' uv missed e,
                  ap (Option.map outward) at ∙ sym (further ∙ ap (Option.map outward) l),
                  faithful',
                )
          ]
    ]
