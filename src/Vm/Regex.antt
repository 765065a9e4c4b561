-- ===== src/Vm/Regex.antt =====
-- crates/js-vm/src/regex.rs: patterns, their compiled form, and the tests of one character.
pub mod Chars
pub mod Repeat
pub mod Backtrack
pub mod Compile
pub mod Pike
pub mod Pattern
pub mod Search
use justscript.Prelude.{ℕ, Bool, true, false, ◌||◌, Option, List, Text}

mutual
  pub data Ast : Type 0 where
    empty : Ast
    char : ℕ → Ast
    dot : Ast
    class : List (ℕ × ℕ) → Bool → Ast
    start : Ast
    end : Ast
    word_boundary : Ast
    not_word_boundary : Ast
    concat : Asts → Ast
    alt : Asts → Ast
    star : Ast → Bool → Ast
    plus : Ast → Bool → Ast
    quest : Ast → Bool → Ast
    group : Ast → ℕ → Ast
    look : Ast → Bool → Bool → Ast
    backref : ℕ → Ast

  -- `Vec<Ast>`
  pub data Asts : Type 0 where
    nil : Asts
    cons : Ast → Asts → Asts

pub data Insn : Type 0 where
  char : ℕ → Insn
  class : List (ℕ × ℕ) → Bool → Insn
  dot : Insn
  start : Insn
  end : Insn
  word_b : Insn
  not_word_b : Insn
  jmp : ℕ → Insn
  split : ℕ → ℕ → Insn
  save : ℕ → Insn
  matched : Insn

pub record RegexProgram : Type 0 where
  pub insns : List Insn
  pub ast : Ast
  pub num_groups : ℕ
  pub names : List (Text × ℕ)
  pub ignore_case : Bool
  pub multiline : Bool
  pub dotall : Bool
  pub backtracks : Bool

-- The capture vector: for each group the positions of its start and of its end.
abbrev pub Caps : Type 0
Caps = List (Option ℕ)

unfoldable mutual
  pub needs_backtrack : Ast → Bool
  needs_backtrack (look _ _ _) = true
  needs_backtrack (backref _) = true
  needs_backtrack (concat xs) = any_needs_backtrack xs
  needs_backtrack (alt xs) = any_needs_backtrack xs
  needs_backtrack (star x _) = needs_backtrack x
  needs_backtrack (plus x _) = needs_backtrack x
  needs_backtrack (quest x _) = needs_backtrack x
  needs_backtrack (group x _) = needs_backtrack x
  needs_backtrack _ = false

  -- `xs.iter().any(needs_backtrack)`
  pub any_needs_backtrack : Asts → Bool
  any_needs_backtrack nil = false
  any_needs_backtrack (cons x xs) = needs_backtrack x || any_needs_backtrack xs
