-- ===== src/Parser/EarlyErrors/Params.antt =====
-- crates/js-parser/src/early_errors.rs: the parameters in the scope of a function.
use mathlib.Core.Option
use mathlib.Core.Option.{some-injective}
use justscript.Prelude.{
  ◌≡◌, refl, true, false, Option, none, some, List, [], ◌∷◌, ◌>>=◌, All, lookup, Text, nat_eq,
  list_eq,
}
use justscript.Parser.EarlyErrors.{
  Scope, Checker, is_some, enter, declare_param, declare_names, declare_each, declare_params,
}
use justscript.Parser.EarlyErrors.Declared.{IsSeparate, AllSeparate, SeparateAfter}

-- The innermost scope declares nothing lexically, and the scopes around it are separate.
abbrev IsFresh : List Scope → Type 0
IsFresh [] = Unit
IsFresh (s ∷ outer) = (s.lexical ≡ []) × All IsSeparate outer

abbrev FreshScopes : Option (List Scope) → Type 0
FreshScopes none = Unit
FreshScopes (some scopes) = IsFresh scopes

bind-FreshScopes :
    (o : Option (List Scope)) (f : List Scope → Option (List Scope))
    → FreshScopes o
    → ((scopes : List Scope) → IsFresh scopes → FreshScopes (f scopes))
    → FreshScopes (o >>= f)
bind-FreshScopes none f h k = tt
bind-FreshScopes (some scopes) f h k = k scopes h

declare_param-FreshScopes :
    (name : Text) (scopes : List Scope) → IsFresh scopes → FreshScopes (declare_param name scopes)
declare_param-FreshScopes name [] h = tt
declare_param-FreshScopes name (s ∷ outer) h = h

declare_names-FreshScopes :
    (names : List Text) (scopes : List Scope)
    → IsFresh scopes
    → FreshScopes (declare_names names scopes)
unfolding declare_names
declare_names-FreshScopes [] scopes h = h
declare_names-FreshScopes (name ∷ names) scopes h =
    bind-FreshScopes (declare_param name scopes) (λ s. declare_names names s)
      (declare_param-FreshScopes name scopes h) λ s k. declare_names-FreshScopes names s k

declare_each-FreshScopes :
    (params : List (List Text)) (scopes : List Scope)
    → IsFresh scopes
    → FreshScopes (declare_each params scopes)
unfolding declare_each
declare_each-FreshScopes [] scopes h = h
declare_each-FreshScopes (names ∷ params) scopes h =
    bind-FreshScopes (declare_names names scopes) (λ s. declare_each params s)
      (declare_names-FreshScopes names scopes h) λ s k. declare_each-FreshScopes params s k

empty-IsSeparate : (s : Scope) → s.lexical ≡ [] → IsSeparate s
unfolding lookup
empty-IsSeparate s e name h =
    let missing : is_some (lookup name s.lexical) ≡ false = rw e refl in absurd (cc)

fresh-SeparateAfter :
    (c : Checker) (o : Option (List Scope))
    → FreshScopes o
    → SeparateAfter (Option.map (λ scopes. record c { scopes = scopes }) o)
unfolding AllSeparate
fresh-SeparateAfter c none h = tt
fresh-SeparateAfter c (some []) h = tt
fresh-SeparateAfter c (some (s ∷ outer)) h = (empty-IsSeparate s h.0, h.1)

-- The parameters of a function are declared in its scope before anything else is.
pub enter_function-SeparateAfter :
    (params : List (List Text)) (c : Checker)
    → AllSeparate c.scopes
    → SeparateAfter (declare_params params (enter true c))
unfolding AllSeparate enter declare_params
enter_function-SeparateAfter params c h =
    fresh-SeparateAfter (enter true c) (declare_each params (enter true c).scopes)
      (declare_each-FreshScopes params (enter true c).scopes (refl, h))
