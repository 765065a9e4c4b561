-- ===== src/Bytecode/Scopes/Lexical.antt =====
-- crates/js-bytecode/src/compiler.rs: what `resolve_upvalue` finds against the lexical rule.
use mathlib.Core.Path.{subst}
use mathlib.Core.Option
use mathlib.Core.Option.{some-injective}
use justscript.Prelude.{
  ℕ, zero, suc, ◌≡◌, ◌∙◌, inl, inr, Option, none, some, List, [], ◌∷◌, ◌++◌, if◌then◌else◌,
  Bool-cases, Option-cases, get_elem?, All, lookup, Text, nat_eq, list_eq,
}
use justscript.Bytecode.Function.{UpvalueSpec}
use justscript.Bytecode.Scopes.{UpvalueBinding, Scope}

-- A variable seen from a function: how many functions further out it is declared, and its slot there.
abbrev pub Place : Type 0
Place = ℕ × ℕ

abbrev pub outward : Place → Place
outward p = (suc p.0, p.1)

-- The slot in the function at hand, or else what is found further out.
abbrev pub nearest : Option ℕ → Option Place → Option Place
nearest none further = Option.map outward further
nearest (some slot) further = some (0, slot)

-- The lexical rule: the innermost function that declares the name.
unfoldable pub lexical : Text → List Scope → Option Place
lexical name [] = none
lexical name (s ∷ rest) = nearest (lookup name s.locals) (lexical name rest)

-- What a captured variable means, where `outer` says what the upvalues of the parent mean.
abbrev pub meaning : (ℕ → Option Place) → UpvalueSpec → Option Place
meaning outer spec =
    if spec.is_local then some (0, spec.index) else Option.map outward (outer spec.index)

-- The place that an upvalue of the innermost function leads to, from function to function.
unfoldable pub follow : List Scope → ℕ → Option Place
follow [] i = none
follow (s ∷ rest) i = elim (get_elem? s.upvalues i) [
  | none ↦ none
  | some b ↦ meaning (follow rest) b.spec
]

-- The captured variable is the one that the lexical rule gives.
abbrev pub Bound : List Scope → UpvalueBinding → Type 0
Bound outer b =
    (p : Place) × (meaning (follow outer) b.spec ≡ some p) × (lexical b.name outer ≡ some p)

abbrev pub IsFaithful : List Scope → Type 0
IsFaithful [] = Unit
IsFaithful (s ∷ rest) = All (Bound rest) s.upvalues × IsFaithful rest

-- No place that an upvalue led to has changed, and no declaration.
abbrev pub Grown : List Scope → List Scope → Type 0
Grown outer outer' =
    ((i : ℕ) (p : Place) → follow outer i ≡ some p → follow outer' i ≡ some p)
    × ((name : Text) → lexical name outer' ≡ lexical name outer)

pub meaning-Grown :
    (outer outer' : List Scope) (spec : UpvalueSpec) (p : Place)
    → Grown outer outer'
    → meaning (follow outer) spec ≡ some p
    → meaning (follow outer') spec ≡ some p
meaning-Grown outer outer' spec p g e = elim (Bool-cases spec.is_local) [
  | inl here' ↦ rw here' (rw here' at e)
  | inr far ↦ elim (Option-cases (follow outer spec.index)) [
    | inl lost ↦ let bad = rw (far, lost) at e in absurd (cc)
    | inr (q, found) ↦ rw (far, g.0 spec.index q found) (rw (far, found) at e)
  ]
]

pub Bound-Grown :
    (outer outer' : List Scope) (b : UpvalueBinding)
    → Grown outer outer'
    → Bound outer b
    → Bound outer' b
Bound-Grown outer outer' b g (p, e, l) =
    (p, meaning-Grown outer outer' b.spec p g e, g.1 b.name ∙ l)

pub All-get {ℓ} :
    {A : Type ℓ} (P : A → Type 0) (xs : List A) (i : ℕ) (a : A)
    → All P xs
    → get_elem? xs i ≡ some a
    → P a
All-get P [] i a h e = absurd (cc)
All-get P (x ∷ xs) zero a h e = subst P (some-injective _ _ e) h.0
All-get P (x ∷ xs) (suc i) a h e = All-get P xs i a h.1 e

pub All-concat {ℓ} :
    {A : Type ℓ} (P : A → Type 0) (xs : List A) (a : A) → All P xs → P a → All P (xs ++ a ∷ [])
All-concat P [] a h p = (p, tt)
All-concat P (x ∷ xs) a h p = (h.0, All-concat P xs a h.1 p)

pub All-Grown :
    (outer outer' : List Scope) (bs : List UpvalueBinding)
    → Grown outer outer'
    → All (Bound outer) bs
    → All (Bound outer') bs
All-Grown outer outer' [] g h = tt
All-Grown outer outer' (b ∷ bs) g h =
    (Bound-Grown outer outer' b g h.0, All-Grown outer outer' bs g h.1)
