-- ===== src/Bytecode/Scopes.antt =====
-- crates/js-bytecode/src/compiler.rs: the scopes of the functions being compiled, the innermost first,
-- and the resolution of names to locals and upvalues.
pub mod Lexical
pub mod Added
pub mod Resolve
pub mod Variables
mod Tests
use justscript.Prelude.{
  ℕ, suc, true, false, Option, none, some, List, [], ◌∷◌, ◌++◌, if◌then◌else◌, ◌==◌, length, Map,
  lookup, insert, Text, u16, nat_eq, list_eq,
}
use justscript.Bytecode.Local
use justscript.Bytecode.Function.{BytecodeFunction, UpvalueSpec}

pub record UpvalueBinding : Type 0 where
  pub name : Text
  pub spec : UpvalueSpec

pub record Scope : Type 0 where
  pub locals : Map Text ℕ
  pub upvalues : List UpvalueBinding

pub data VarRef : Type 0 where
  local upvalue : ℕ → VarRef
  global : VarRef

-- The index of the first binding of the name.
unfoldable pub position : Text → List UpvalueBinding → Option ℕ
position name [] = none
position name (b ∷ rest) =
    let later = position name rest in
    if b.name == name then some 0 else elim later [ none ↦ none | some i ↦ some (suc i) ]

unfoldable pub add_upvalue : Text → UpvalueSpec → Scope → ℕ × Scope
unfolding position
add_upvalue name spec scope = elim (position name scope.upvalues) [
  | some i ↦ (u16 i, scope)
  | none ↦ (
    u16 (length scope.upvalues),
    record scope { upvalues = scope.upvalues ++ record { name = name; spec = spec } ∷ [] },
  )
]

-- The index in the child scope, and the child and its ancestors behind the call. The last ancestor is
-- `scopes[0]`.
unfoldable pub resolve_upvalue : Text → Scope → List Scope → Option (ℕ × Scope × List Scope)
unfolding add_upvalue
resolve_upvalue name child [] = none
resolve_upvalue name child (parent ∷ outer) =
    let beyond = resolve_upvalue name parent outer in
    elim (lookup name parent.locals) [
      | some slot ↦
          let (i, child') = add_upvalue name (record { is_local = true; index = slot }) child in
          some (i, child', parent ∷ outer)
      | none ↦ elim beyond [
        | none ↦ none
        | some (uv, parent', outer') ↦
            let (i, child') = add_upvalue name (record { is_local = false; index = uv }) child in
            some (i, child', parent' ∷ outer')
      ]
    ]

-- `none` is the panic where no function is being compiled.
unfoldable pub resolve_var : Text → List Scope → Option (VarRef × List Scope)
unfolding resolve_upvalue
resolve_var name [] = none
resolve_var name (current ∷ outer) = elim (lookup name current.locals) [
  | some slot ↦ some (local slot, current ∷ outer)
  | none ↦ elim (resolve_upvalue name current outer) [
    | none ↦ some (global, current ∷ outer)
    | some (uv, current', outer') ↦ some (upvalue uv, current' ∷ outer')
  ]
]

unfoldable pub declare_local :
    Text → BytecodeFunction → List Scope → Option (ℕ × BytecodeFunction × List Scope)
unfolding Local.intern
declare_local name f [] = none
declare_local name f (current ∷ outer) = elim (lookup name current.locals) [
  | some slot ↦ some (slot, f, current ∷ outer)
  | none ↦
      let (table, slot) = Local.intern name f.locals in
      some (
        slot,
        record f { locals = table },
        record current { locals = insert name slot current.locals } ∷ outer,
      )
]
