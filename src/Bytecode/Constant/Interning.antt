-- ===== src/Bytecode/Constant/Interning.antt =====
-- crates/js-bytecode/src/constant.rs: what an index of the constant pool leads to.
use justscript.Prelude.{
  ℕ, ◌%◌, ◌^◌, ◌≤◌, ◌<◌, ◌≡◌, refl, ◌⊎◌, inl, inr, none, some, [], ◌∷◌, ◌++◌, arith, if◌then◌else◌,
  Option-cases, ◌==◌, get_elem?-concat, get_elem?-some_lt, Map, lookup, insert, lookup-insert_cases,
  Text, u16, nat_eq, list_eq,
}
use justscript.Runtime.BigInt.{JsBigInt}
use justscript.Runtime.BigInt.{from_literal}
use justscript.Bytecode.Constant.{
  intern_num, intern_int, intern_bigint, ConstantValue, string, number, integer, bigint,
  ConstantPool, new, len, push, intern_str, get,
}

get-push :
    (v : ConstantValue) (p : ConstantPool) (i : ℕ)
    → len p < 2 ^ 16
    → get i (push v p).0 ≡ (if i == len p then some v else get i p)
unfolding get push
get-push v p i h = get_elem?-concat p.items v i

-- What every call of the pool keeps: the constants that are there keep their index.
abbrev pub Extends : ConstantPool → ConstantPool → Type 0
Extends p q = (i : ℕ) (v : ConstantValue) → get i p ≡ some v → get i q ≡ some v

module _ (int_bits : ℕ → ℕ) where
  -- A constant that the key `bits` may stand for.
  abbrev pub HasBits : ℕ → ConstantValue → Type 0
  HasBits bits v = (v ≡ number bits) ⊎ ((i : ℕ) × (v ≡ integer i) × (int_bits i ≡ bits))

  -- Every key leads to the constant that it was made from.
  pub record IsPool (p : ConstantPool) : Type 0 where
    pub strings : (s : Text) (i : ℕ) → lookup s p.by_str ≡ some i → get i p ≡ some (string s)
    pub numbers :
        (bits i : ℕ)
        → lookup bits p.by_num ≡ some i
        → (v : ConstantValue) × (get i p ≡ some v) × HasBits bits v
    pub bigints : (b : JsBigInt) (i : ℕ) → lookup b p.by_bigint ≡ some i → get i p ≡ some (bigint b)

  pub new-IsPool : IsPool new
  unfolding lookup
  new-IsPool = record {
    strings = λ s i e. absurd (cc);
    numbers = λ b i e. absurd (cc);
    bigints = λ b i e. absurd (cc);
  }

  module _ (p : ConstantPool) (room : len p < 2 ^ 16) (v : IsPool p) where
    push-Extends : (c : ConstantValue) → Extends p (push c p).0
    unfolding get
    push-Extends c i w e = ground (arith, get-push c p i room, get_elem?-some_lt p.items i e)

    get-push_self : (c : ConstantValue) → get (u16 (len p)) (push c p).0 ≡ some c
    get-push_self c = ground (arith, get-push c p (len p) room)

    get-push-len : (c : ConstantValue) → get (len p) (push c p).0 ≡ some c
    get-push-len c = ground (arith, get-push c p (len p) room)

    -- The pool behind a constant that was not there, with the maps `S`, `N` and `B`.
    abbrev grown : ConstantValue → Map Text ℕ → Map ℕ ℕ → Map Text ℕ → ConstantPool
    grown c S N B = record { items = p.items ++ c ∷ []; by_str = S; by_num = N; by_bigint = B }

    grown-IsPool :
        (c : ConstantValue) (S : Map Text ℕ) (N : Map ℕ ℕ) (B : Map Text ℕ)
        → ((s : Text) (i : ℕ)
            → lookup s S ≡ some i
            → (lookup s p.by_str ≡ some i) ⊎ ((i ≡ len p) × (c ≡ string s)))
        → ((bits i : ℕ)
            → lookup bits N ≡ some i
            → (lookup bits p.by_num ≡ some i) ⊎ ((i ≡ len p) × HasBits bits c))
        → ((b : JsBigInt) (i : ℕ)
            → lookup b B ≡ some i
            → (lookup b p.by_bigint ≡ some i) ⊎ ((i ≡ len p) × (c ≡ bigint b)))
        → Extends p (grown c S N B) × IsPool (grown c S N B)
    unfolding push get
    grown-IsPool c S N B hs hn hb = (
      push-Extends c,
      record {
        strings = λ s i e. elim (hs s i e) [
          | inl old ↦ push-Extends c i _ (v.strings s i old)
          | inr (here, is) ↦ rw (here, is) (get-push-len (string s))
        ];
        numbers = λ bits i e. elim (hn bits i e) [
          | inl old ↦
              let (w, found, has) = v.numbers bits i old in (w, push-Extends c i w found, has)
          | inr (here, has) ↦ (c, rw here (get-push-len c), has)
        ];
        bigints = λ b i e. elim (hb b i e) [
          | inl old ↦ push-Extends c i _ (v.bigints b i old)
          | inr (here, is) ↦ rw (here, is) (get-push-len (bigint b))
        ];
      },
    )

    -- In a well-formed pool of fewer than 65536 constants, interning a string returns an index that
    -- leads to it. No constant moves, and the pool stays well formed: every key leads to its
    -- constant.
    pub intern_str_lem :
        (s : Text)
        → (get (intern_str s p).1 (intern_str s p).0 ≡ some (string s))
          × Extends p (intern_str s p).0
          × IsPool (intern_str s p).0
    unfolding intern_str push get
    intern_str_lem s = elim (Option-cases (lookup s p.by_str)) [
      | inr (i, e) ↦ rw (intern_str, e) (v.strings s i e, λ j w h. h, v)
      | inl e ↦
          let (kept, pool) =
            grown-IsPool (string s) (insert s (u16 (len p)) p.by_str) p.by_num p.by_bigint
              (λ t i h. elim (lookup-insert_cases s t (u16 (len p)) i p.by_str h) [
                | inl old ↦ inl old
                | inr (same, here) ↦ inr (omega arith, rw same)
              ])
              (λ t i h. inl h) (λ t i h. inl h) in
          rw (intern_str, e) (get-push_self (string s), kept, pool)
    ]

    -- In a well-formed pool of fewer than 65536 constants, interning a number returns an index that
    -- leads to a constant with its bits. No constant moves, and the pool stays well formed: every
    -- key leads to its constant.
    pub intern_num_lem :
        (bits : ℕ)
        → ((c : ConstantValue) × (get (intern_num bits p).1 (intern_num bits p).0 ≡ some c)
            × HasBits bits c)
          × Extends p (intern_num bits p).0
          × IsPool (intern_num bits p).0
    unfolding intern_num push get
    intern_num_lem bits = elim (Option-cases (lookup bits p.by_num)) [
      | inr (i, e) ↦ rw (intern_num, e) (v.numbers bits i e, λ j w h. h, v)
      | inl e ↦
          let (kept, pool) =
            grown-IsPool (number bits) p.by_str (insert bits (u16 (len p)) p.by_num) p.by_bigint
              (λ t i h. inl h)
              (λ t i h. elim (lookup-insert_cases bits t (u16 (len p)) i p.by_num h) [
                | inl old ↦ inl old
                | inr (same, here) ↦ inr (omega arith, inl (rw same))
              ])
              (λ t i h. inl h) in
          rw (intern_num, e) ((number bits, get-push_self (number bits), inl refl), kept, pool)
    ]

    -- In a well-formed pool of fewer than 65536 constants, interning an integer returns an index
    -- that leads to a constant with the bits of its float. No constant moves, and the pool stays
    -- well formed: every key leads to its constant.
    pub intern_int_lem :
        (n : ℕ)
        → ((c : ConstantValue) × (get (intern_int int_bits n p).1 (intern_int int_bits n p).0
              ≡ some c)
            × HasBits (int_bits n) c)
          × Extends p (intern_int int_bits n p).0
          × IsPool (intern_int int_bits n p).0
    unfolding intern_int push get
    intern_int_lem n = elim (Option-cases (lookup (int_bits n) p.by_num)) [
      | inr (i, e) ↦ rw (intern_int, e) (v.numbers (int_bits n) i e, λ j w h. h, v)
      | inl e ↦
          let (kept, pool) =
            grown-IsPool (integer n) p.by_str (insert (int_bits n) (u16 (len p)) p.by_num)
              p.by_bigint (λ t i h. inl h)
              (λ t i h. elim (lookup-insert_cases (int_bits n) t (u16 (len p)) i p.by_num h) [
                | inl old ↦ inl old
                | inr (same, here) ↦ inr (omega arith, inr (n, refl, same))
              ])
              (λ t i h. inl h) in
          rw (intern_int, e)
            ((integer n, get-push_self (integer n), inr (n, refl, refl)), kept, pool)
    ]

    -- In a well-formed pool of fewer than 65536 constants, interning a BigInt literal that converts
    -- returns an index that leads to the number that it spells. No constant moves, and the pool
    -- stays well formed: every key leads to its constant.
    pub intern_bigint_lem :
        (raw : Text) (b : JsBigInt)
        → from_literal raw ≡ some b
        → (r : ConstantPool × ℕ) × (intern_bigint raw p ≡ some r)
          × (get r.1 r.0 ≡ some (bigint b))
          × Extends p r.0
          × IsPool r.0
    unfolding intern_bigint push get
    intern_bigint_lem raw b made = elim (Option-cases (lookup b p.by_bigint)) [
      | inr (i, e) ↦ ((p, i), rw (made, e, intern_bigint), v.bigints b i e, λ j w h. h, v)
      | inl e ↦
          let idx = u16 (len p) in
          let (kept, pool) =
            grown-IsPool (bigint b) p.by_str p.by_num (insert b idx p.by_bigint) (λ t i h. inl h)
              (λ t i h. inl h)
              (λ t i h. elim (lookup-insert_cases b t idx i p.by_bigint h) [
                | inl old ↦ inl old
                | inr (same, here) ↦ inr (omega arith, rw same)
              ]) in
          (
            (grown (bigint b) p.by_str p.by_num (insert b idx p.by_bigint), idx),
            rw (made, e, intern_bigint),
            get-push_self (bigint b),
            kept,
            pool,
          )
    ]

-- In a pool of 65536 constants or more, interning a string that it does not know returns an index
-- that leads to the constant which the wrapped index led to before the call.
pub intern_str_wraps :
    (s : Text) (p : ConstantPool)
    → lookup s p.by_str ≡ none
    → 2 ^ 16 ≤ len p
    → get (intern_str s p).1 (intern_str s p).0 ≡ get (len p % 2 ^ 16) p
unfolding intern_str push get
intern_str_wraps s p e full =
    rw (intern_str, e) (ground (arith, get_elem?-concat p.items (string s) (len p % 2 ^ 16)))
