-- ===== src/Vm/Regex/Repeat.antt =====
-- crates/js-vm/src/regex.rs: bounded repetition written out as a concatenation.
use justscript.Prelude.{ℕ, zero, suc, ◌-◌, Bool, Option, none, some}
use justscript.Vm.Regex.{Ast, Asts, empty, concat, star, quest, nil, cons}

-- `n` times `parts.push(atom.clone())`, before what is pushed later
unfoldable pub push_copies : ℕ → Ast → Asts → Asts
push_copies zero atom later = later
push_copies (suc n) atom later = cons atom (push_copies n atom later)

-- What a vector of parts becomes: nothing, the one part, or a concatenation.
unfoldable pub from_parts : Asts → Ast
from_parts nil = empty
from_parts (cons part nil) = part
from_parts parts = concat parts

unfoldable pub optional_parts : Ast → ℕ → Option ℕ → Bool → Asts
unfolding push_copies
optional_parts atom least none greedy = cons (star atom greedy) nil
optional_parts atom least (some most) greedy = push_copies (most - least) (quest atom greedy) nil

unfoldable pub expand_repeat : Ast → ℕ → Option ℕ → Bool → Ast
unfolding push_copies from_parts optional_parts
expand_repeat atom least most greedy =
    from_parts (push_copies least atom (optional_parts atom least most greedy))
