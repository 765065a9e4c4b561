-- ===== src/Syntax/Keyword.antt =====
-- crates/js-syntax/src/keyword.rs: the keywords, their table of spellings, and the two searches in it.
-- The derived `PartialEq` of an enum without fields compares the discriminants.
pub mod Equality
pub mod Spelling
use justscript.Prelude.{
  ℕ, Option, none, some, List, [], ◌∷◌, nat_beq, if◌then◌else◌, ◌==◌, Text, codes, nat_eq, list_eq,
}

pub data Keyword : Type 0 where
  var let_word const function class if_word else_word for while do_word switch case : Keyword
  default break continue return throw try catch finally new delete typeof instanceof : Keyword
  in_op of void this super true false null undefined async await yield enum static get : Keyword
  set import export from as_word debugger extends with : Keyword

unfoldable pub discriminant : Keyword → ℕ
discriminant Keyword.var = 0
discriminant Keyword.let_word = 1
discriminant Keyword.const = 2
discriminant Keyword.function = 3
discriminant Keyword.class = 4
discriminant Keyword.if_word = 5
discriminant Keyword.else_word = 6
discriminant Keyword.for = 7
discriminant Keyword.while = 8
discriminant Keyword.do_word = 9
discriminant Keyword.switch = 10
discriminant Keyword.case = 11
discriminant Keyword.default = 12
discriminant Keyword.break = 13
discriminant Keyword.continue = 14
discriminant Keyword.return = 15
discriminant Keyword.throw = 16
discriminant Keyword.try = 17
discriminant Keyword.catch = 18
discriminant Keyword.finally = 19
discriminant Keyword.new = 20
discriminant Keyword.delete = 21
discriminant Keyword.typeof = 22
discriminant Keyword.instanceof = 23
discriminant Keyword.in_op = 24
discriminant Keyword.of = 25
discriminant Keyword.void = 26
discriminant Keyword.this = 27
discriminant Keyword.super = 28
discriminant Keyword.true = 29
discriminant Keyword.false = 30
discriminant Keyword.null = 31
discriminant Keyword.undefined = 32
discriminant Keyword.async = 33
discriminant Keyword.await = 34
discriminant Keyword.yield = 35
discriminant Keyword.enum = 36
discriminant Keyword.static = 37
discriminant Keyword.get = 38
discriminant Keyword.set = 39
discriminant Keyword.import = 40
discriminant Keyword.export = 41
discriminant Keyword.from = 42
discriminant Keyword.as_word = 43
discriminant Keyword.debugger = 44
discriminant Keyword.extends = 45
discriminant Keyword.with = 46

abbrev pub all : List (Text × Keyword)
all =
    (codes "var", Keyword.var)
    ∷ (codes "let", Keyword.let_word)
    ∷ (codes "const", Keyword.const)
    ∷ (codes "function", Keyword.function)
    ∷ (codes "class", Keyword.class)
    ∷ (codes "if", Keyword.if_word)
    ∷ (codes "else", Keyword.else_word)
    ∷ (codes "for", Keyword.for)
    ∷ (codes "while", Keyword.while)
    ∷ (codes "do", Keyword.do_word)
    ∷ (codes "switch", Keyword.switch)
    ∷ (codes "case", Keyword.case)
    ∷ (codes "default", Keyword.default)
    ∷ (codes "break", Keyword.break)
    ∷ (codes "continue", Keyword.continue)
    ∷ (codes "return", Keyword.return)
    ∷ (codes "throw", Keyword.throw)
    ∷ (codes "try", Keyword.try)
    ∷ (codes "catch", Keyword.catch)
    ∷ (codes "finally", Keyword.finally)
    ∷ (codes "new", Keyword.new)
    ∷ (codes "delete", Keyword.delete)
    ∷ (codes "typeof", Keyword.typeof)
    ∷ (codes "instanceof", Keyword.instanceof)
    ∷ (codes "in", Keyword.in_op)
    ∷ (codes "of", Keyword.of)
    ∷ (codes "void", Keyword.void)
    ∷ (codes "this", Keyword.this)
    ∷ (codes "super", Keyword.super)
    ∷ (codes "true", Keyword.true)
    ∷ (codes "false", Keyword.false)
    ∷ (codes "null", Keyword.null)
    ∷ (codes "undefined", Keyword.undefined)
    ∷ (codes "async", Keyword.async)
    ∷ (codes "await", Keyword.await)
    ∷ (codes "yield", Keyword.yield)
    ∷ (codes "enum", Keyword.enum)
    ∷ (codes "static", Keyword.static)
    ∷ (codes "get", Keyword.get)
    ∷ (codes "set", Keyword.set)
    ∷ (codes "import", Keyword.import)
    ∷ (codes "export", Keyword.export)
    ∷ (codes "from", Keyword.from)
    ∷ (codes "as", Keyword.as_word)
    ∷ (codes "debugger", Keyword.debugger)
    ∷ (codes "extends", Keyword.extends)
    ∷ (codes "with", Keyword.with)
    ∷ []

-- `ALL.iter().find(|(_, k)| *k == self).map(|(s, _)| *s)`
unfoldable pub find_spelling : Keyword → List (Text × Keyword) → Option Text
unfolding discriminant
find_spelling k [] = none
find_spelling k ((s, j) ∷ rest) =
    if nat_beq (discriminant j) (discriminant k) then some s else find_spelling k rest

-- `none` is the panic of `expect`.
unfoldable pub as_str : Keyword → Option Text
unfolding find_spelling
as_str k = find_spelling k all

-- `ALL.iter().find(|(spelling, _)| *spelling == s).map(|(_, k)| *k)`
unfoldable pub find_keyword : Text → List (Text × Keyword) → Option Keyword
find_keyword s [] = none
find_keyword s ((t, k) ∷ rest) = if t == s then some k else find_keyword s rest

-- `none` is `Err(())`.
unfoldable pub from_str : Text → Option Keyword
unfolding find_keyword
from_str s = find_keyword s all
