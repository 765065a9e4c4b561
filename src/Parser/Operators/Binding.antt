-- ===== src/Parser/Operators/Binding.antt =====
-- crates/js-parser/src/expr.rs: every binary operator binds, and all but one to the left.
use justscript.Prelude.{ℕ, suc, ◌≡◌, refl, ◌⊎◌, inl, inr, some}
use justscript.Syntax.Op.{BinOp}
use justscript.Parser.Operators.{binding_power}

-- No operator is without a binding power, and the right power is the one above the left power, which
-- keeps an operator of the same power out of the right operand, for all operators but `**`.
pub binding_power-some :
    (op : BinOp)
    → (left : ℕ) × (right : ℕ) × (binding_power op ≡ some (left, right))
      × ((op ≡ BinOp.exp) ⊎ (right ≡ suc left))
unfolding binding_power
binding_power-some BinOp.nullish_coal = (1, 2, refl, inr refl)
binding_power-some BinOp.or = (1, 2, refl, inr refl)
binding_power-some BinOp.and = (3, 4, refl, inr refl)
binding_power-some BinOp.bit_or = (5, 6, refl, inr refl)
binding_power-some BinOp.bit_xor = (7, 8, refl, inr refl)
binding_power-some BinOp.bit_and = (9, 10, refl, inr refl)
binding_power-some BinOp.eq = (11, 12, refl, inr refl)
binding_power-some BinOp.not_eq = (11, 12, refl, inr refl)
binding_power-some BinOp.strict_eq = (11, 12, refl, inr refl)
binding_power-some BinOp.strict_not_eq = (11, 12, refl, inr refl)
binding_power-some BinOp.lt = (13, 14, refl, inr refl)
binding_power-some BinOp.gt = (13, 14, refl, inr refl)
binding_power-some BinOp.le = (13, 14, refl, inr refl)
binding_power-some BinOp.ge = (13, 14, refl, inr refl)
binding_power-some BinOp.instanceof = (13, 14, refl, inr refl)
binding_power-some BinOp.in_op = (13, 14, refl, inr refl)
binding_power-some BinOp.shl = (15, 16, refl, inr refl)
binding_power-some BinOp.shr = (15, 16, refl, inr refl)
binding_power-some BinOp.ushr = (15, 16, refl, inr refl)
binding_power-some BinOp.add = (17, 18, refl, inr refl)
binding_power-some BinOp.sub = (17, 18, refl, inr refl)
binding_power-some BinOp.mul = (19, 20, refl, inr refl)
binding_power-some BinOp.div = (19, 20, refl, inr refl)
binding_power-some BinOp.mod_op = (19, 20, refl, inr refl)
binding_power-some BinOp.exp = (23, 22, refl, inl refl)
