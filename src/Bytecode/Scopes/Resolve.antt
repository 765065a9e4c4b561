-- ===== src/Bytecode/Scopes/Resolve.antt =====
-- crates/js-bytecode/src/compiler.rs: `resolve_upvalue` captures what the lexical rule gives.
use mathlib.Core.Option
use mathlib.Core.Option.{some-injective}
use justscript.Prelude.{
  ℕ, ◌^◌, ◌<◌, ◌≡◌, refl, ap, ◌∙◌, inl, inr, true, false, Option, none, some, List, [], ◌∷◌,
  Option-cases, length, All, lookup, Text, nat_eq, list_eq,
}
use justscript.Bytecode.Function.{UpvalueSpec}
use justscript.Bytecode.Scopes.{Scope, add_upvalue, resolve_upvalue}
use justscript.Bytecode.Scopes.Lexical.{
  Place, outward, lexical, nearest, meaning, follow, Bound, IsFaithful, Grown, All-Grown,
}
use justscript.Bytecode.Scopes.Added.{Kept-Grown, add_upvalue_lem}

-- Every function has room for one more upvalue.
abbrev pub HasRoom : List Scope → Type 0
HasRoom = All (λ s. length s.upvalues < 2 ^ 16)

-- What a resolution from `child` has to give, beyond `outer`.
abbrev pub Resolves : Text → Scope → List Scope → Option (ℕ × Scope × List Scope) → Type 0
Resolves name child outer none = lexical name outer ≡ none
Resolves name child outer (some (i, child', outer')) =
    (p : Place) × (lexical name outer ≡ some p)
    × (follow (child' ∷ outer') i ≡ some p)
    × IsFaithful (child' ∷ outer')
    × (child'.locals ≡ child.locals)
    × Grown (child ∷ outer) (child' ∷ outer')

-- From `add_upvalue` to the resolution, where the ancestors have grown to `outer'`.
resolved :
    (name : Text) (spec : UpvalueSpec) (child : Scope) (outer outer' : List Scope) (p : Place)
    → length child.upvalues < 2 ^ 16
    → All (Bound outer) child.upvalues
    → IsFaithful outer'
    → Grown outer outer'
    → meaning (follow outer') spec ≡ some p
    → lexical name outer ≡ some p
    → Resolves name child outer
        (some ((add_upvalue name spec child).0, (add_upvalue name spec child).1, outer'))
resolved name spec child outer outer' p room bound faithful g m l =
    let (at, bound', kept) =
      add_upvalue_lem name spec child outer' p room (All-Grown outer outer' child.upvalues g bound)
        m (g.1 name ∙ l) in
    (
      p,
      l,
      at,
      (bound', faithful),
      kept.0,
      Kept-Grown child (add_upvalue name spec child).1 outer outer' kept g,
    )

Grown-refl : (outer : List Scope) → Grown outer outer
Grown-refl outer = ((λ i p e. e), (λ name. refl))

pub lexical-found :
    (name : Text) (s : Scope) (outer : List Scope) (slot : ℕ)
    → lookup name s.locals ≡ some slot
    → lexical name (s ∷ outer) ≡ some (0, slot)
unfolding lexical
lexical-found name s outer slot e = ap (λ o. nearest o (lexical name outer)) e

pub lexical-further :
    (name : Text) (s : Scope) (outer : List Scope)
    → lookup name s.locals ≡ none
    → lexical name (s ∷ outer) ≡ Option.map outward (lexical name outer)
unfolding lexical
lexical-further name s outer e = ap (λ o. nearest o (lexical name outer)) e

lexical-nil : (name : Text) → lexical name [] ≡ none
unfolding lexical
lexical-nil name = refl

resolve_further :
    (name : Text) (child parent parent' : Scope) (outer outer' : List Scope) (uv : ℕ)
    → lookup name parent.locals ≡ none
    → resolve_upvalue name parent outer ≡ some (uv, parent', outer')
    → resolve_upvalue name child (parent ∷ outer)
      ≡ some (
        (add_upvalue name (record { is_local = false; index = uv }) child).0,
        (add_upvalue name (record { is_local = false; index = uv }) child).1,
        parent' ∷ outer',
      )
unfolding resolve_upvalue
resolve_further name child parent parent' outer outer' uv missed e =
    rw (missed, resolve_upvalue, e) refl

resolve_lost :
    (name : Text) (child parent : Scope) (outer : List Scope)
    → lookup name parent.locals ≡ none
    → resolve_upvalue name parent outer ≡ none
    → resolve_upvalue name child (parent ∷ outer) ≡ none
unfolding resolve_upvalue
resolve_lost name child parent outer missed e = rw (missed, resolve_upvalue, e) refl

resolve_nil : (name : Text) (child : Scope) → resolve_upvalue name child [] ≡ none
unfolding resolve_upvalue
resolve_nil name child = refl

resolve_found :
    (name : Text) (child parent : Scope) (outer : List Scope) (slot : ℕ)
    → lookup name parent.locals ≡ some slot
    → resolve_upvalue name child (parent ∷ outer)
      ≡ some (
        (add_upvalue name (record { is_local = true; index = slot }) child).0,
        (add_upvalue name (record { is_local = true; index = slot }) child).1,
        parent ∷ outer,
      )
unfolding resolve_upvalue
resolve_found name child parent outer slot e = rw (e, resolve_upvalue) refl

-- Resolving a name beyond a function captures the variable of the innermost enclosing function that
-- declares it, and finds none only where there is none. The index leads to that variable from
-- function to function, as does every upvalue that was there before; no declaration changes.
pub resolve_upvalue_lem :
    (name : Text) (child : Scope) (outer : List Scope)
    → HasRoom (child ∷ outer)
    → IsFaithful (child ∷ outer)
    → Resolves name child outer (resolve_upvalue name child outer)
resolve_upvalue_lem name child [] room faithful = rw (resolve_nil name child) (lexical-nil name)
resolve_upvalue_lem name child (parent ∷ outer) room faithful =
    let further = resolve_upvalue_lem name parent outer room.1 faithful.1 in
    elim (Option-cases (lookup name parent.locals)) [
      | inr (slot, found) ↦ rw (resolve_found name child parent outer slot found) (
          resolved name (record { is_local = true; index = slot }) child (parent ∷ outer)
            (parent ∷ outer) (0, slot) room.0 faithful.0 faithful.1 (Grown-refl (parent ∷ outer))
            refl (lexical-found name parent outer slot found))
      | inl missed ↦
          let beyond = lexical-further name parent outer missed in
          elim (Option-cases (resolve_upvalue name parent outer)) [
            | inl lost ↦
                rw (resolve_lost name child parent outer missed lost)
                  (beyond ∙ ap (Option.map outward) (rw lost at further))
            | inr ((uv, parent', outer'), e) ↦
                let (p, l, at, faithful', same, g) = rw e at further in
                rw (resolve_further name child parent parent' outer outer' uv missed e) (
                  resolved name (record { is_local = false; index = uv }) child (parent ∷ outer)
                    (parent' ∷ outer') (outward p) room.0 faithful.0 faithful' g
                    (ap (Option.map outward) at) (beyond ∙ ap (Option.map outward) l))
          ]
    ]
