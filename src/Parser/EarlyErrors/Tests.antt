-- ===== src/Parser/EarlyErrors/Tests.antt =====
-- Runs of the scopes of crates/js-parser/src/early_errors.rs.
use justscript.Prelude.{
  ◌≡◌, refl, ◌↔◌, Bool, true, false, Option, none, some, List, [], ◌∷◌, length, Map, Text, codes,
}
use justscript.Syntax.Source.{dummy}
use justscript.Parser.EarlyErrors.{
  LexicalName, check_statement_list_names, Checker, enter, declare_lexical_kind, declare_var,
  declare_params,
}
use justscript.Parser.EarlyErrors.Names.{IsAllowed}
use justscript.Parser.EarlyErrors.Allowed.{check_statement_list_names_iff}
use justscript.Parser.EarlyErrors.Declared.{AllSeparate}
use justscript.Parser.EarlyErrors.Separate.{
  Steps, none_left, then_steps, entered_function, declared_lexical, declared_var, Steps-AllSeparate,
}

abbrev script : Checker
script = record { errors = []; is_strict = false; scopes = [] }

abbrev in_block : Checker
unfolding enter
in_block = enter false (enter true script)

abbrev or_script : Option Checker → Checker
or_script none = script
or_script (some c) = c

abbrev with_var : Checker
unfolding declare_var
with_var = or_script (declare_var (codes "x") dummy in_block)

abbrev with_let : Checker
unfolding declare_lexical_kind
with_let = or_script (declare_lexical_kind (codes "x") dummy false in_block)

-- A variable behind a lexical declaration of its block is reported here; the other order is left to
-- the check of the names of a statement list.
let_var : length (or_script (declare_var (codes "x") dummy with_let)).errors ≡ 1
unfolding declare_var with_let in_block
let_var = refl

var_let : length (or_script (declare_lexical_kind (codes "x") dummy false with_var)).errors ≡ 0
unfolding declare_lexical_kind with_var in_block
var_let = refl

-- A function with the parameters `[a, b]` and `c`.
abbrev function_body : Checker
unfolding enter declare_params
function_body =
    or_script
      (declare_params ((codes "a" ∷ codes "b" ∷ []) ∷ (codes "c" ∷ []) ∷ []) (enter true script))

abbrev body_let : Checker
unfolding declare_lexical_kind
body_let = or_script (declare_lexical_kind (codes "x") dummy false function_body)

abbrev body_var : Checker
unfolding declare_var
body_var = or_script (declare_var (codes "y") dummy body_let)

declarations : Steps script body_var
unfolding enter declare_params declare_lexical_kind declare_var
declarations =
    then_steps
      (entered_function ((codes "a" ∷ codes "b" ∷ []) ∷ (codes "c" ∷ []) ∷ []) script function_body
        refl)
      (then_steps (declared_lexical (codes "x") dummy false function_body body_let refl)
        (then_steps (declared_var (codes "y") dummy body_let body_var refl) (none_left body_var)))

no_scopes : AllSeparate script.scopes
unfolding AllSeparate
no_scopes = tt

Steps-AllSeparate_example : AllSeparate body_var.scopes
Steps-AllSeparate_example = Steps-AllSeparate declarations no_scopes

abbrev declared : Text → Bool → LexicalName
declared name ordinary_function = record { name = name; ordinary_function = ordinary_function }

-- `function f() {} let x; function f() {} var y;`, in sloppy code.
abbrev pair : List LexicalName
pair = declared (codes "f") true ∷ declared (codes "x") false ∷ declared (codes "f") true ∷ []

abbrev variables : Map Text (Unit {0})
variables = (codes "y", tt) ∷ []

check_statement_list_names_iff_example :
    ((check_statement_list_names pair variables dummy script).errors ≡ script.errors)
    ↔ IsAllowed false variables pair
check_statement_list_names_iff_example = check_statement_list_names_iff pair variables dummy script

check_statement_list_names-pair :
    length (check_statement_list_names pair variables dummy script).errors ≡ 0
unfolding check_statement_list_names
check_statement_list_names-pair = refl

-- `let y; function f() {} let f; var y;` has two errors.
check_statement_list_names-clash :
    length
      (check_statement_list_names
        (declared (codes "y") false ∷ declared (codes "f") true ∷ declared (codes "f") false ∷ [])
        variables
        dummy
        script).errors
    ≡ 2
unfolding check_statement_list_names
check_statement_list_names-clash = refl
