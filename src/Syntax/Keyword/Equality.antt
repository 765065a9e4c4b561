-- ===== src/Syntax/Keyword/Equality.antt =====
-- The derived equality of `Keyword`: its discriminants tell the values apart.
use mathlib.Core.Option.{some-injective}
use justscript.Prelude.{
  ◌≡◌, refl, sym, ap, ◌∙◌, ◌↔◌, true, some, List, [], ◌∷◌, nat_beq, nat_beq_iff, PartialEq,
  get_elem?,
}
use justscript.Syntax.Keyword.{Keyword, discriminant}

abbrev values : List Keyword
values =
    Keyword.var ∷ Keyword.let_word ∷ Keyword.const ∷ Keyword.function ∷ Keyword.class
    ∷ Keyword.if_word ∷ Keyword.else_word ∷ Keyword.for ∷ Keyword.while ∷ Keyword.do_word
    ∷ Keyword.switch ∷ Keyword.case ∷ Keyword.default ∷ Keyword.break ∷ Keyword.continue
    ∷ Keyword.return ∷ Keyword.throw ∷ Keyword.try ∷ Keyword.catch ∷ Keyword.finally ∷ Keyword.new
    ∷ Keyword.delete ∷ Keyword.typeof ∷ Keyword.instanceof ∷ Keyword.in_op ∷ Keyword.of
    ∷ Keyword.void ∷ Keyword.this ∷ Keyword.super ∷ Keyword.true ∷ Keyword.false ∷ Keyword.null
    ∷ Keyword.undefined ∷ Keyword.async ∷ Keyword.await ∷ Keyword.yield ∷ Keyword.enum
    ∷ Keyword.static ∷ Keyword.get ∷ Keyword.set ∷ Keyword.import ∷ Keyword.export ∷ Keyword.from
    ∷ Keyword.as_word ∷ Keyword.debugger ∷ Keyword.extends ∷ Keyword.with ∷ []

get_elem?-discriminant : (x : Keyword) → get_elem? values (discriminant x) ≡ some x
unfolding discriminant
get_elem?-discriminant Keyword.var = refl
get_elem?-discriminant _ = refl

pub keyword_beq_iff : (x y : Keyword) → (nat_beq (discriminant x) (discriminant y) ≡ true) ↔ (x ≡ y)
keyword_beq_iff x y = (
  λ e.
      let same : discriminant x ≡ discriminant y = (nat_beq_iff _ _).0 e in
      some-injective _ _
        (sym (get_elem?-discriminant x) ∙ ap (get_elem? values) same ∙ get_elem?-discriminant y),
  λ e. (nat_beq_iff _ _).1 (ap discriminant e),
)

instance abbrev pub keyword_eq : PartialEq Keyword
keyword_eq = record {
  is_eq = λ x y. nat_beq (discriminant x) (discriminant y);
  is_eq_iff = keyword_beq_iff;
}
