-- ===== src/Parser/Stream/Position.antt =====
-- crates/js-parser/src/token_stream.rs: the position stays inside the tokens, which end in `eof`.
use justscript.Prelude.{
  ℕ, zero, suc, ◌+◌, ◌-◌, ◌<◌, min, ◌≡◌, refl, ◌≢◌, ◌⊎◌, inl, inr, Bool, true, false, Option, none,
  some, List, [], ◌∷◌, ◌++◌, arith, ltb, if◌then◌else◌, Bool-cases, length, length-append,
  get_elem?_lt,
}
use justscript.Parser.Stream.{
  Slot, ParserTokenStream, slots, new, peek, peek_at, advance, bump, eat, ok, error, expect,
  eof_slot,
}
use justscript.Syntax.Token.{Token, TokenKind, token_beq}
use justscript.Syntax.Token.Equality.{token_beq_iff, erase}

abbrev pub EndsInEof : List Slot → Type 0
EndsInEof [] = ⊥
EndsInEof (s ∷ []) = s.token.kind ≡ TokenKind.eof
EndsInEof (s ∷ t ∷ rest) = EndsInEof (t ∷ rest)

-- The tokens end in `eof` and the position is one of theirs.
abbrev pub IsStream : ParserTokenStream → Type 0
IsStream s = EndsInEof s.tokens × (s.pos < length s.tokens)

pub append-EndsInEof : (xs : List Slot) (p : Bool) → EndsInEof (xs ++ eof_slot p ∷ [])
append-EndsInEof [] p = refl
append-EndsInEof (x ∷ []) p = refl
append-EndsInEof (x ∷ y ∷ rest) p = append-EndsInEof (y ∷ rest) p

-- Whatever the lexer yields, the new stream ends in `eof` and stands at a token.
pub new-IsStream : (toks : List Token) → IsStream (new toks)
unfolding new
new-IsStream toks = (
  append-EndsInEof (slots false toks).0 (slots false toks).1,
  rw (length-append (slots false toks).0 (eof_slot (slots false toks).1 ∷ [])) (omega arith),
)

-- A stream always shows a token, however far ahead.
pub peek-some : (s : ParserTokenStream) → IsStream s → (slot : Slot) × (peek s ≡ some slot)
unfolding peek
peek-some s h = get_elem?_lt s.tokens s.pos h.1

pub peek_at-some :
    (n : ℕ) (s : ParserTokenStream) → IsStream s → (slot : Slot) × (peek_at n s ≡ some slot)
unfolding peek_at
peek_at-some n s h =
    get_elem?_lt s.tokens (min (s.pos + n) (length s.tokens - 1)) (omega (arith, h.1))

-- The stream `n` tokens on, but not past the last one.
abbrev pub moved : ParserTokenStream → ℕ → ParserTokenStream
moved s n = record s { pos = min (s.pos + n) (length s.tokens - 1) }

advance_pos : (p l : ℕ) → p < l → (if ltb (p + 1) l then p + 1 else p) ≡ min (p + 1) (l - 1)
advance_pos p l h = ground arith

advance_if :
    (s : ParserTokenStream)
    → advance s ≡ record s { pos = if ltb (s.pos + 1) (length s.tokens) then s.pos + 1 else s.pos }
unfolding advance
advance_if s = elim (Bool-cases (ltb (s.pos + 1) (length s.tokens))) [
  | inl e ↦ rw e refl
  | inr e ↦ rw e refl
]

advance_lem : (s : ParserTokenStream) → IsStream s → advance s ≡ moved s 1
advance_lem s h = rw (advance_if s, advance_pos s.pos (length s.tokens) h.1) refl

moved-IsStream : (s : ParserTokenStream) (n : ℕ) → IsStream s → IsStream (moved s n)
moved-IsStream s n h = (h.0, omega (arith, h.1))

min-min : (p n l : ℕ) → min (min (p + 1) (l - 1) + n) (l - 1) ≡ min (p + suc n) (l - 1)
min-min p n l = omega arith

-- `n` calls of `bump`.
unfoldable pub bumps : ℕ → ParserTokenStream → Option ParserTokenStream
bumps zero s = some s
bumps (suc n) s = elim (bump s) [ none ↦ none | some (slot, t) ↦ bumps n t ]

bump_lem :
    (s : ParserTokenStream)
    → IsStream s
    → (slot : Slot) × (peek s ≡ some slot) × (bump s ≡ some (slot, moved s 1))
unfolding bump peek-some
bump_lem s h = let (slot, e) = peek-some s h in (slot, e, rw (e, bump, advance_lem s h) refl)

min_self : (p l : ℕ) → p < l → min (p + 0) (l - 1) ≡ p
min_self p l h = omega arith

-- Any number of `bump`s on a stream succeeds. The position moves on by their number, but not past
-- the last token, and nothing else changes.
pub bumps_lem :
    (n : ℕ) (s : ParserTokenStream)
    → IsStream s
    → bumps n s ≡ some (record s { pos = min (s.pos + n) (length s.tokens - 1) })
unfolding bumps
bumps_lem zero s h = rw (bumps, min_self s.pos (length s.tokens) h.1) refl
bumps_lem (suc n) s h =
    let (slot, e, f) = bump_lem s h in
    rw (bumps, f, bumps_lem n (moved s 1) (moved-IsStream s 1 h), min-min s.pos n (length s.tokens))
      refl

refuted : {b : Bool} → b ≡ true → b ≡ false → ⊥
refuted e f = absurd (cc)

eat_lem :
    (kind : TokenKind) (s : ParserTokenStream) (slot : Slot)
    → peek s ≡ some slot
    → eat kind s ≡ some (if token_beq slot.token.kind kind then (true, advance s) else (false, s))
unfolding eat
eat_lem kind s slot e = rw (e, eat) refl

expect_lem :
    (kind : TokenKind) (s : ParserTokenStream) (slot : Slot)
    → peek s ≡ some slot
    → expect kind s
      ≡ some (
          if token_beq slot.token.kind kind
          then (ok slot.token, advance s)
          else (error slot.token.span kind slot.token.kind, s))
unfolding expect
expect_lem kind s slot e = rw (e, expect) refl

-- On a stream, `eat` and `expect` succeed with the same outcome. If the current token has the
-- wanted kind (a comment's newline aside), it is consumed, `eat` says true and `expect` returns it.
-- Otherwise nothing moves, `eat` says false and `expect` names the place, the kind that was wanted
-- and the one that was found. In both cases a stream is left.
pub eat-expect :
    (kind : TokenKind) (s : ParserTokenStream)
    → IsStream s
    → (slot : Slot) × (peek s ≡ some slot)
      × (((erase slot.token.kind ≡ erase kind)
            × (eat kind s ≡ some (true, moved s 1))
            × (expect kind s ≡ some (ok slot.token, moved s 1)))
          ⊎ ((erase slot.token.kind ≢ erase kind)
              × (eat kind s ≡ some (false, s))
              × (expect kind s ≡ some (error slot.token.span kind slot.token.kind, s))))
      × IsStream (moved s 1)
eat-expect kind s h =
    let (slot, e) = peek-some s h in
    (
      slot,
      e,
      elim (Bool-cases (token_beq slot.token.kind kind)) [
        | inl f ↦ inl (
          (token_beq_iff slot.token.kind kind).0 f,
          rw (eat_lem kind s slot e, f, advance_lem s h) refl,
          rw (expect_lem kind s slot e, f, advance_lem s h) refl,
        )
        | inr f ↦ inr (
          (λ g. refuted ((token_beq_iff slot.token.kind kind).1 g) f),
          rw (eat_lem kind s slot e, f) refl,
          rw (expect_lem kind s slot e, f) refl,
        )
      ],
      moved-IsStream s 1 h,
    )
