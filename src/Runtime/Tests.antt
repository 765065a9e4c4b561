-- ===== src/Runtime/Tests.antt =====
-- Runs of crates/js-runtime/src/value.rs on BigInt literals.
use mathlib.Core.Option
use justscript.Prelude.{ℕ, ◌≡◌, refl, true, none, some, List, [], ◌∷◌, length, Text, codes}
use justscript.Runtime.Cell.{BindingCell, direct, indirect, ok, set}
use justscript.Runtime.Cell.Alias.{Shows, set-Shows}
use justscript.Runtime.BigInt.{from_literal, split_radix, remove_separators, strip_n, to_digit}
use justscript.Runtime.BigInt.Exact.{radix_value, parts, read_decimal, from_literal-value}

-- 2 ^ 40, in two spellings.
abbrev hex : Text
hex = codes "0x100_0000_0000n"

abbrev decimal : Text
decimal = codes "01099511627776n"

from_literal-hex : from_literal hex ≡ some (codes "1099511627776")
unfolding from_literal
from_literal-hex = refl

from_literal-decimal : from_literal decimal ≡ some (codes "1099511627776")
unfolding from_literal
from_literal-decimal = refl

from_literal-bad : from_literal (codes "12z") ≡ none
unfolding from_literal
from_literal-bad = refl

same_value :
    radix_value (parts hex).0 0 (parts hex).1 ≡ radix_value (parts decimal).0 0 (parts decimal).1
unfolding radix_value split_radix remove_separators strip_n to_digit
same_value = refl

from_literal-value_example :
    Option.map (read_decimal 0) (from_literal hex) ≡ radix_value (parts hex).0 0 (parts hex).1
from_literal-value_example = from_literal-value hex

-- An exported binding that may change, and an import of it: cells 0 and 1.
abbrev heap : List (BindingCell ℕ)
heap = indirect 0 ∷ direct (some 3) true ∷ []

abbrev changed : List (BindingCell ℕ)
changed = indirect 0 ∷ direct (some 8) true ∷ []

set-heap : set heap 0 8 ≡ some (ok changed)
unfolding set
set-heap = refl

set-Shows_example : Shows heap changed 0 8 1 × (length changed ≡ length heap)
set-Shows_example = set-Shows heap 0 8 changed 1 set-heap
