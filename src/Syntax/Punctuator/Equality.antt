-- ===== src/Syntax/Punctuator/Equality.antt =====
-- The derived equality of `Punctuator`: its discriminants tell the values apart.
use mathlib.Core.Option.{some-injective}
use justscript.Prelude.{
  ◌≡◌, refl, sym, ap, ◌∙◌, ◌↔◌, true, some, List, [], ◌∷◌, nat_beq, nat_beq_iff, PartialEq,
  get_elem?,
}
use justscript.Syntax.Punctuator.{Punctuator, discriminant}

abbrev values : List Punctuator
values =
    Punctuator.l_brace ∷ Punctuator.r_brace ∷ Punctuator.l_paren ∷ Punctuator.r_paren
    ∷ Punctuator.l_bracket ∷ Punctuator.r_bracket ∷ Punctuator.dot ∷ Punctuator.spread
    ∷ Punctuator.semicolon ∷ Punctuator.comma ∷ Punctuator.colon ∷ Punctuator.arrow
    ∷ Punctuator.question_mark ∷ Punctuator.nullish_coal ∷ Punctuator.opt_chain ∷ Punctuator.assign
    ∷ Punctuator.add_assign ∷ Punctuator.sub_assign ∷ Punctuator.mul_assign ∷ Punctuator.div_assign
    ∷ Punctuator.mod_assign ∷ Punctuator.exp_assign ∷ Punctuator.bit_and_assign
    ∷ Punctuator.bit_or_assign ∷ Punctuator.bit_xor_assign ∷ Punctuator.shl_assign
    ∷ Punctuator.shr_assign ∷ Punctuator.ushr_assign ∷ Punctuator.and_assign ∷ Punctuator.or_assign
    ∷ Punctuator.nullish_assign ∷ Punctuator.eq ∷ Punctuator.not_eq ∷ Punctuator.strict_eq
    ∷ Punctuator.strict_not_eq ∷ Punctuator.lt ∷ Punctuator.gt ∷ Punctuator.le ∷ Punctuator.ge
    ∷ Punctuator.add ∷ Punctuator.sub ∷ Punctuator.mul ∷ Punctuator.div ∷ Punctuator.mod_op
    ∷ Punctuator.exp ∷ Punctuator.inc ∷ Punctuator.dec ∷ Punctuator.and ∷ Punctuator.or
    ∷ Punctuator.not ∷ Punctuator.bit_and ∷ Punctuator.bit_or ∷ Punctuator.bit_xor
    ∷ Punctuator.bit_not ∷ Punctuator.shl ∷ Punctuator.shr ∷ Punctuator.ushr ∷ Punctuator.at ∷ []

get_elem?-discriminant : (x : Punctuator) → get_elem? values (discriminant x) ≡ some x
unfolding discriminant
get_elem?-discriminant Punctuator.l_brace = refl
get_elem?-discriminant _ = refl

pub punctuator_beq_iff :
    (x y : Punctuator) → (nat_beq (discriminant x) (discriminant y) ≡ true) ↔ (x ≡ y)
punctuator_beq_iff x y = (
  λ e.
      let same : discriminant x ≡ discriminant y = (nat_beq_iff _ _).0 e in
      some-injective _ _
        (sym (get_elem?-discriminant x) ∙ ap (get_elem? values) same ∙ get_elem?-discriminant y),
  λ e. (nat_beq_iff _ _).1 (ap discriminant e),
)

instance abbrev pub punctuator_eq : PartialEq Punctuator
punctuator_eq = record {
  is_eq = λ x y. nat_beq (discriminant x) (discriminant y);
  is_eq_iff = punctuator_beq_iff;
}
