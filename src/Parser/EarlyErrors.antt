-- ===== src/Parser/EarlyErrors.antt =====
-- crates/js-parser/src/early_errors.rs: the lexical scopes of the checker and its redeclaration errors.
-- The names that a parameter binds, and those that a statement list declares, are given.
pub mod Declared
pub mod Params
pub mod Names
pub mod Allowed
pub mod Separate
mod Tests
use mathlib.Core.Option
use justscript.Prelude.{
  Bool, true, false, not, ◌&&◌, ◌||◌, Option, none, some, List, [], ◌∷◌, ◌++◌, map, if◌then◌else◌,
  ◌>>=◌, drop, Map, lookup, insert, Text, nat_eq, list_eq,
}
use justscript.Syntax.Source.{Span}

pub record LexicalBinding : Type 0 where
  pub ordinary_function : Bool

-- A `HashSet<String>` is a map to nothing.
pub record Scope : Type 0 where
  pub lexical : Map Text LexicalBinding
  pub vars : Map Text (Unit {0})
  pub is_function : Bool

abbrev pub new : Bool → Scope
new is_function = record { lexical = []; vars = []; is_function = is_function }

-- The part of the checker that declares names: the innermost scope stands first, and an error is
-- the span and the name declared again.
pub record Checker : Type 0 where
  pub errors : List (Span × Text)
  pub is_strict : Bool
  pub scopes : List Scope

abbrev pub error : Span → Text → Checker → Checker
error span name c = record c { errors = c.errors ++ (span, name) ∷ [] }

unfoldable pub enter : Bool → Checker → Checker
enter is_function c = record c { scopes = new is_function ∷ c.scopes }

unfoldable pub leave : Checker → Checker
leave c = record c { scopes = drop 1 c.scopes }

abbrev pub is_some {ℓ} : {A : Type ℓ} → Option A → Bool
is_some none = false
is_some (some _) = true

-- `annex_b_pair`, where the name is declared lexically before
abbrev pub pairs_with : Bool → Bool → Option LexicalBinding → Bool
pairs_with is_strict ordinary none = true
pairs_with is_strict ordinary (some previous) =
    not is_strict && previous.ordinary_function && ordinary

abbrev pub declare_in : Text → Bool → Scope → Scope
declare_in name ordinary s = record s {
  lexical = insert name (record { ordinary_function = ordinary }) s.lexical;
}

-- `declare_lexical_kind` in the scope `s`, above the scopes `outer`
abbrev pub declare_at : Text → Span → Bool → Checker → Scope → List Scope → Checker
declare_at name span ordinary c s outer =
    if not (pairs_with c.is_strict ordinary (lookup name s.lexical))
    then error span name c
    else if is_some (lookup name s.vars)
    then error span name c
    else record c { scopes = declare_in name ordinary s ∷ outer }

-- `none` is the panic without a scope.
abbrev pub declare_top : Text → Span → Bool → Checker → List Scope → Option Checker
declare_top name span ordinary c [] = none
declare_top name span ordinary c (s ∷ outer) = some (declare_at name span ordinary c s outer)

unfoldable pub declare_lexical_kind : Text → Span → Bool → Checker → Option Checker
unfolding lookup insert
declare_lexical_kind name span ordinary c = declare_top name span ordinary c c.scopes

unfoldable pub declare_lexical : Text → Span → Checker → Option Checker
unfolding declare_lexical_kind
declare_lexical name span c = declare_lexical_kind name span false c

unfoldable pub declare_block_function : Text → Span → Bool → Checker → Option Checker
unfolding declare_lexical_kind
declare_block_function name span ordinary c = declare_lexical_kind name span ordinary c

-- Some scope up to the nearest function scope declares the name lexically.
unfoldable pub hides : Text → List Scope → Bool
unfolding lookup
hides name [] = false
hides name (s ∷ outer) = is_some (lookup name s.lexical) || (not s.is_function && hides name outer)

abbrev pub add_var : Text → Scope → Scope
add_var name s = record s { vars = insert name tt s.vars }

-- The variable goes to the nearest function scope, or to the outermost scope.
unfoldable pub hoist : Text → List Scope → Option (List Scope)
unfolding insert
hoist name [] = none
hoist name (s ∷ []) = some (add_var name s ∷ [])
hoist name (s ∷ t ∷ outer) =
    if s.is_function
    then some (add_var name s ∷ t ∷ outer)
    else Option.map (◌∷◌ s) (hoist name (t ∷ outer))

unfoldable pub declare_var : Text → Span → Checker → Option Checker
unfolding hides hoist
declare_var name span c =
    if hides name c.scopes
    then some (error span name c)
    else Option.map (λ scopes. record c { scopes = scopes }) (hoist name c.scopes)

-- `self.scopes.last_mut().unwrap().vars.insert(…)`
abbrev pub declare_param : Text → List Scope → Option (List Scope)
declare_param name [] = none
declare_param name (s ∷ outer) = some (add_var name s ∷ outer)

-- the loop over the names of one parameter
unfoldable pub declare_names : List Text → List Scope → Option (List Scope)
unfolding insert
declare_names [] scopes = some scopes
declare_names (name ∷ names) scopes = do
  declared ← declare_param name scopes
  declare_names names declared

-- the loop over the parameters, each given by its bound names
unfoldable pub declare_each : List (List Text) → List Scope → Option (List Scope)
unfolding declare_names
declare_each [] scopes = some scopes
declare_each (names ∷ params) scopes = do
  declared ← declare_names names scopes
  declare_each params declared

unfoldable pub declare_params : List (List Text) → Checker → Option Checker
unfolding declare_each
declare_params params c =
    Option.map (λ scopes. record c { scopes = scopes }) (declare_each params c.scopes)

pub record LexicalName : Type 0 where
  pub name : Text
  pub ordinary_function : Bool

-- What `check_statement_list_names` reports of one declaration, as conditions: a declaration of the
-- name before it with which it makes no pair, and a variable of the name.
abbrev pub clashes : Bool → Option Bool → Bool → Bool
clashes is_strict none ordinary = false
clashes is_strict (some previous) ordinary = not (not is_strict && previous && ordinary)

abbrev pub error_if : Bool → Span → Text → Checker → Checker
error_if b span name c = if b then error span name c else c

-- the loop over the lexical declarations, with those `seen` before
unfoldable pub check_names :
    Span → Map Text (Unit {0}) → Map Text Bool → List LexicalName → Checker → Checker
unfolding lookup insert
check_names span vars seen [] c = c
check_names span vars seen (d ∷ rest) c =
    check_names span vars (insert d.name d.ordinary_function seen) rest (
      error_if (is_some (lookup d.name vars)) span d.name
        (error_if (clashes c.is_strict (lookup d.name seen) d.ordinary_function) span d.name c))

-- The names that the statements declare are given.
unfoldable pub check_statement_list_names :
    List LexicalName → Map Text (Unit {0}) → Span → Checker → Checker
unfolding check_names
check_statement_list_names lexical vars span c = check_names span vars [] lexical c
