-- ===== src/Syntax/Keyword/Spelling.antt =====
-- crates/js-syntax/src/keyword.rs: the spelling of a keyword and the keyword of a spelling.
use mathlib.Core.Option
use justscript.Prelude.{
  ◌≡◌, refl, some, List, [], ◌∷◌, nat_eq, list_eq, list_beq_iff, All, Text, arith,
}
use justscript.Syntax.Keyword.{Keyword, all, as_str, find_keyword, from_str}

-- Every keyword has a spelling, so that `as_str` does not panic, and reading the spelling gives
-- the keyword back.
from_str-as_str : (k : Keyword) → Option.bind (as_str k) from_str ≡ some k
unfolding as_str from_str Option.bind
from_str-as_str Keyword.var = refl
from_str-as_str _ = refl

abbrev IsSpelled : Text × Keyword → Type 0
IsSpelled e = as_str e.1 ≡ some e.0

find_keyword-IsSpelled :
    (table : List (Text × Keyword)) (s : Text) (k : Keyword)
    → All IsSpelled table
    → find_keyword s table ≡ some k
    → as_str k ≡ some s
unfolding find_keyword
find_keyword-IsSpelled [] s k h e = absurd (cc)
find_keyword-IsSpelled ((t, j) ∷ rest) s k h e =
    ground (arith, h.0, list_beq_iff t s, find_keyword-IsSpelled rest s k h.1)

all-IsSpelled : All IsSpelled all
unfolding as_str
all-IsSpelled = ground arith

-- What `from_str` accepts is the spelling of the keyword that it returns.
pub as_str-from_str : (s : Text) {k : Keyword} → from_str s ≡ some k → as_str k ≡ some s
unfolding from_str
as_str-from_str s {k} h = find_keyword-IsSpelled all s k all-IsSpelled h
