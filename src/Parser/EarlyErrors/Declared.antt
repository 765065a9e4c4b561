-- ===== src/Parser/EarlyErrors/Declared.antt =====
-- crates/js-parser/src/early_errors.rs: a declaration keeps apart what a scope declares both ways.
use mathlib.Core.Path.{subst}
use mathlib.Core.Option
use mathlib.Core.Option.{some-injective}
use justscript.Prelude.{
  ◌≡◌, refl, ◌⊎◌, inl, inr, Bool, true, false, not, ◌&&◌, ◌||◌, Option, none, some, List, [], ◌∷◌,
  if◌then◌else◌, Bool-cases, ◌==◌, list_beq_iff, All, Map, lookup, insert, lookup-insert, Text,
  nat_eq, list_eq,
}
use justscript.Syntax.Source.{Span}
use justscript.Parser.EarlyErrors.{
  Scope, Checker, is_some, pairs_with, declare_in, declare_at, declare_top, hides, add_var, hoist,
  declare_var,
}

-- No name that a scope declares lexically is one of its variables.
abbrev pub IsSeparate : Scope → Type 0
IsSeparate s =
    (name : Text) → is_some (lookup name s.lexical) ≡ true → is_some (lookup name s.vars) ≡ false

unfoldable pub AllSeparate : List Scope → Type 0
AllSeparate scopes = All IsSeparate scopes

is_some-lookup-insert {ℓ} :
    {V : Type ℓ} (k j : Text) (v : V) (m : Map Text V)
    → is_some (lookup j (insert k v m)) ≡ true
    → (is_some (lookup j m) ≡ true) ⊎ (k ≡ j)
is_some-lookup-insert k j v m h = elim (Bool-cases (k == j)) [
  | inl same ↦ inr ((list_beq_iff k j).0 same)
  | inr other ↦ inl (rw (lookup-insert, other) at h)
]

add_var-IsSeparate :
    (name : Text) (s : Scope)
    → is_some (lookup name s.lexical) ≡ false
    → IsSeparate s
    → IsSeparate (add_var name s)
add_var-IsSeparate name s fresh h other e =
    elim (Bool-cases (is_some (lookup other (insert name tt s.vars)))) [
      | inr missing ↦ missing
      | inl there ↦ elim (is_some-lookup-insert name other tt s.vars there) [
        | inl old ↦ let bad = h other e in absurd (cc)
        | inr same ↦
            let bad : is_some (lookup other s.lexical) ≡ false =
              subst (λ n. is_some (lookup n s.lexical) ≡ false) same fresh in
            absurd (cc)
      ]
    ]

declare_in-IsSeparate :
    (name : Text) (ordinary : Bool) (s : Scope)
    → is_some (lookup name s.vars) ≡ false
    → IsSeparate s
    → IsSeparate (declare_in name ordinary s)
declare_in-IsSeparate name ordinary s fresh h other e =
    elim (is_some-lookup-insert name other _ s.lexical e) [
      | inl old ↦ h other old
      | inr same ↦ subst (λ n. is_some (lookup n s.vars) ≡ false) same fresh
    ]

-- A lexical declaration in the innermost of separate scopes leaves them separate.
declare_at-AllSeparate :
    (name : Text) (span : Span) (ordinary : Bool) (c : Checker) (s : Scope) (outer : List Scope)
    → c.scopes ≡ s ∷ outer
    → AllSeparate c.scopes
    → AllSeparate (declare_at name span ordinary c s outer).scopes
unfolding AllSeparate
declare_at-AllSeparate name span ordinary c s outer e h =
    let separate : All IsSeparate (s ∷ outer) = subst (All IsSeparate) e h in
    elim (Bool-cases (not (pairs_with c.is_strict ordinary (lookup name s.lexical)))) [
      | inl refused ↦ rw refused h
      | inr fits ↦ elim (Bool-cases (is_some (lookup name s.vars))) [
        | inl is_var ↦ rw (fits, is_var) h
        | inr no_var ↦
            rw (fits, no_var) (declare_in-IsSeparate name ordinary s no_var separate.0, separate.1)
      ]
    ]

abbrev pub SeparateAfter : Option Checker → Type 0
SeparateAfter none = Unit
SeparateAfter (some c) = AllSeparate c.scopes

pub declare_top-SeparateAfter :
    (name : Text) (span : Span) (ordinary : Bool) (c : Checker) (scopes : List Scope)
    → c.scopes ≡ scopes
    → AllSeparate c.scopes
    → SeparateAfter (declare_top name span ordinary c scopes)
declare_top-SeparateAfter name span ordinary c [] e h = tt
declare_top-SeparateAfter name span ordinary c (s ∷ outer) e h =
    declare_at-AllSeparate name span ordinary c s outer e h

abbrev SeparateScopes : Option (List Scope) → Type 0
SeparateScopes none = Unit
SeparateScopes (some scopes) = All IsSeparate scopes

map-SeparateScopes :
    (s : Scope) (o : Option (List Scope))
    → IsSeparate s
    → SeparateScopes o
    → SeparateScopes (Option.map (◌∷◌ s) o)
map-SeparateScopes s none h k = tt
map-SeparateScopes s (some scopes) h k = (h, k)

if-SeparateScopes :
    (b : Bool) (x y : Option (List Scope))
    → (b ≡ true → SeparateScopes x)
    → (b ≡ false → SeparateScopes y)
    → SeparateScopes (if b then x else y)
if-SeparateScopes true x y h k = h refl
if-SeparateScopes false x y h k = k refl

beyond_block : (b r : Bool) → b ≡ false → (not b && r) ≡ false → r ≡ false
beyond_block false r e h = h
beyond_block true r e h = absurd (cc)

or-neither : (a b : Bool) → (a || b) ≡ false → (a ≡ false) × (b ≡ false)
or-neither false b e = (refl, e)
or-neither true b e = absurd (cc)

hoist-SeparateScopes :
    (name : Text) (scopes : List Scope)
    → hides name scopes ≡ false
    → All IsSeparate scopes
    → SeparateScopes (hoist name scopes)
unfolding hides hoist
hoist-SeparateScopes name [] e h = tt
hoist-SeparateScopes name (s ∷ []) e h =
    (add_var-IsSeparate name s (or-neither (is_some (lookup name s.lexical)) _ e).0 h.0, tt)
hoist-SeparateScopes name (s ∷ t ∷ outer) e h =
    let (fresh, rest) = or-neither (is_some (lookup name s.lexical)) _ e in
    if-SeparateScopes s.is_function (some (add_var name s ∷ t ∷ outer)) _
      (λ _. (add_var-IsSeparate name s fresh h.0, h.1))
      λ block.
        map-SeparateScopes s (hoist name (t ∷ outer)) h.0
          (hoist-SeparateScopes name (t ∷ outer) (beyond_block s.is_function _ block rest) h.1)

with_scopes-SeparateAfter :
    (c : Checker) (o : Option (List Scope))
    → SeparateScopes o
    → SeparateAfter (Option.map (λ scopes. record c { scopes = scopes }) o)
unfolding AllSeparate
with_scopes-SeparateAfter c none h = tt
with_scopes-SeparateAfter c (some scopes) h = h

pub declare_var-SeparateAfter :
    (name : Text) (span : Span) (c : Checker)
    → AllSeparate c.scopes
    → SeparateAfter (declare_var name span c)
unfolding declare_var AllSeparate
declare_var-SeparateAfter name span c h = elim (Bool-cases (hides name c.scopes)) [
  | inl hidden ↦ rw hidden h
  | inr free ↦ rw free (
      with_scopes-SeparateAfter c (hoist name c.scopes) (hoist-SeparateScopes name c.scopes free h))
]
