-- ===== src/Bytecode/Constant.antt =====
-- crates/js-bytecode/src/constant.rs: the constant pool. A float is its 64 bits, an `i32` the number
-- of its 32 bits; `int_bits` stands for `(i as f64).to_bits()`.
pub mod Interning
use justscript.Prelude.{
  ℕ, Option, none, some, List, [], ◌∷◌, ◌++◌, length, get_elem?, Map, lookup, insert, Text, u16,
  nat_eq, list_eq,
}
use justscript.Runtime.BigInt.{JsBigInt, from_literal}

-- The values that the pool holds.
pub data ConstantValue : Type 0 where
  string : Text → ConstantValue
  number integer : ℕ → ConstantValue
  bigint : JsBigInt → ConstantValue

pub record ConstantPool : Type 0 where
  pub items : List ConstantValue
  pub by_str : Map Text ℕ
  pub by_num : Map ℕ ℕ
  pub by_bigint : Map Text ℕ

abbrev pub new : ConstantPool
new = record { items = []; by_str = []; by_num = []; by_bigint = [] }

abbrev pub len : ConstantPool → ℕ
len p = length p.items

unfoldable pub push : ConstantValue → ConstantPool → ConstantPool × ℕ
push v p = (record p { items = p.items ++ v ∷ [] }, u16 (length p.items))

unfoldable pub intern_str : Text → ConstantPool → ConstantPool × ℕ
unfolding push
intern_str s p = elim (lookup s p.by_str) [
  | some i ↦ (p, i)
  | none ↦ let (q, idx) = push (string s) p in (record q { by_str = insert s idx q.by_str }, idx)
]

unfoldable pub intern_num : ℕ → ConstantPool → ConstantPool × ℕ
unfolding push
intern_num key p = elim (lookup key p.by_num) [
  | some i ↦ (p, i)
  | none ↦
      let (q, idx) = push (number key) p in (record q { by_num = insert key idx q.by_num }, idx)
]

-- Integers share the map of the floats, under the bits of the float of the same value.
unfoldable pub intern_int : (ℕ → ℕ) → ℕ → ConstantPool → ConstantPool × ℕ
unfolding push
intern_int int_bits i p =
    let key = int_bits i in
    elim (lookup key p.by_num) [
      | some idx ↦ (p, idx)
      | none ↦
          let (q, idx) = push (integer i) p in (record q { by_num = insert key idx q.by_num }, idx)
    ]

-- `none` is the panic of `from_literal` on a digit outside the radix.
unfoldable pub intern_bigint : Text → ConstantPool → Option (ConstantPool × ℕ)
unfolding push
intern_bigint raw p = elim (from_literal raw) [
  | none ↦ none
  | some b ↦ some (elim (lookup b p.by_bigint) [
    | some index ↦ (p, index)
    | none ↦
        let (q, index) = push (bigint b) p in
        (record q { by_bigint = insert b index q.by_bigint }, index)
  ])
]

-- `none` is the panic of the index.
unfoldable pub get : ℕ → ConstantPool → Option ConstantValue
get idx p = get_elem? p.items idx
