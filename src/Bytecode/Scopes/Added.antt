-- ===== src/Bytecode/Scopes/Added.antt =====
-- crates/js-bytecode/src/compiler.rs: `add_upvalue` keeps what was captured.
use mathlib.Core.Option.{some-injective}
use mathlib.Core.Path.{subst}
use justscript.Prelude.{
  ℕ, ◌^◌, ◌<◌, ◌≡◌, refl, sym, ap, ◌∙◌, inl, inr, some, List, [], ◌∷◌, ◌++◌, arith, Bool-cases,
  Option-cases, ◌==◌, list_beq_iff, length, get_elem?, All, get_elem?-append_lt,
  get_elem?-append_length, get_elem?-some_lt, lookup, Text, u16, nat_eq, list_eq,
}
use justscript.Bytecode.Function.{UpvalueSpec}
use justscript.Bytecode.Scopes.{UpvalueBinding, Scope, position, add_upvalue}
use justscript.Bytecode.Scopes.Lexical.{
  Place, lexical, nearest, meaning, follow, Bound, Grown, meaning-Grown, All-get, All-concat,
}

-- Where a name stands among the bindings.
abbrev pub IsAt : Text → List UpvalueBinding → ℕ → Type 0
IsAt name bs i =
    (c : UpvalueBinding) × (get_elem? bs i ≡ some c) × (c.name ≡ name) × (i < length bs)

position_lem :
    (name : Text) (bs : List UpvalueBinding) (i : ℕ) → position name bs ≡ some i → IsAt name bs i
unfolding position
position_lem name [] i e = absurd (cc)
position_lem name (b ∷ bs) i e = elim (Bool-cases (b.name == name)) [
  | inl same ↦
      subst (IsAt name (b ∷ bs)) (some-injective _ _ (rw same at e))
        (b, refl, (list_beq_iff b.name name).0 same, omega arith)
  | inr other ↦ elim (Option-cases (position name bs)) [
    | inl lost ↦ let bad = rw (other, lost) at e in absurd (cc)
    | inr (j, found) ↦
        let (c, at, named, lt) = position_lem name bs j found in
        subst (IsAt name (b ∷ bs)) (some-injective _ _ (rw (other, found) at e))
          (c, at, named, omega (arith, lt))
  ]
]

-- The scope with one more or the same upvalue.
abbrev pub Kept : Scope → Scope → Type 0
Kept s t =
    (t.locals ≡ s.locals)
    × ((i : ℕ) (b : UpvalueBinding)
        → get_elem? s.upvalues i ≡ some b
        → get_elem? t.upvalues i ≡ some b)

follow-at :
    (s : Scope) (rest : List Scope) (i : ℕ) (b : UpvalueBinding)
    → get_elem? s.upvalues i ≡ some b
    → follow (s ∷ rest) i ≡ meaning (follow rest) b.spec
unfolding follow
follow-at s rest i b e = rw (e, follow) refl

lexical-locals :
    (name : Text) (s t : Scope) (outer outer' : List Scope)
    → t.locals ≡ s.locals
    → lexical name outer' ≡ lexical name outer
    → lexical name (t ∷ outer') ≡ lexical name (s ∷ outer)
unfolding lexical
lexical-locals name s t outer outer' e l =
    ap (λ m. nearest (lookup name m) (lexical name outer')) e
    ∙ ap (nearest (lookup name s.locals)) l

pub Kept-Grown :
    (s t : Scope) (outer outer' : List Scope)
    → Kept s t
    → Grown outer outer'
    → Grown (s ∷ outer) (t ∷ outer')
unfolding follow
Kept-Grown s t outer outer' (same, keeps) g = (
  (λ i p e. elim (Option-cases (get_elem? s.upvalues i)) [
    | inl lost ↦ let bad = rw (lost, follow) at e in absurd (cc)
    | inr (b, found) ↦
        follow-at t outer' i b (keeps i b found)
        ∙ meaning-Grown outer outer' b.spec p g (sym (follow-at s outer i b found) ∙ e)
  ]),
  (λ name. lexical-locals name s t outer outer' same (g.1 name)),
)

-- What `add_upvalue` makes of a scope below `outer`.
abbrev pub Added : Place → List Scope → Scope → ℕ × Scope → Type 0
Added p outer s r =
    (follow (r.1 ∷ outer) r.0 ≡ some p) × All (Bound outer) r.1.upvalues × Kept s r.1

pub add_upvalue_lem :
    (name : Text) (spec : UpvalueSpec) (s : Scope) (outer : List Scope) (p : Place)
    → length s.upvalues < 2 ^ 16
    → All (Bound outer) s.upvalues
    → meaning (follow outer) spec ≡ some p
    → lexical name outer ≡ some p
    → Added p outer s (add_upvalue name spec s)
unfolding add_upvalue
add_upvalue_lem name spec s outer p room bound m l =
    elim (Option-cases (position name s.upvalues)) [
      | inr (i, found) ↦
          let (c, at, named, lt) = position_lem name s.upvalues i found in
          let (q, mq, lq) = All-get (Bound outer) s.upvalues i c bound at in
          let small : u16 i ≡ i = omega (arith, lt, room) in
          rw (found, add_upvalue)
            (
              rw small (follow-at s outer i c at ∙ mq ∙ sym (rw named at lq) ∙ l),
              bound,
              (refl, (λ j b e. e)),
            )
      | inl fresh ↦
          let added : UpvalueBinding = record { name = name; spec = spec } in
          let grown : Scope = record s { upvalues = s.upvalues ++ added ∷ [] } in
          let small : u16 (length s.upvalues) ≡ length s.upvalues = omega (arith, room) in
          rw (fresh, add_upvalue)
            (
              rw small (
                  follow-at grown outer (length s.upvalues) added
                    (get_elem?-append_length s.upvalues added [])
                  ∙ m),
              All-concat (Bound outer) s.upvalues added bound (p, m, l),
              (
                refl,
                (λ j b e.
                    get_elem?-append_lt s.upvalues (added ∷ []) j (get_elem?-some_lt s.upvalues j e)
                    ∙ e),
              ),
            )
    ]
