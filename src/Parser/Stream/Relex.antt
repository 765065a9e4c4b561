-- ===== src/Parser/Stream/Relex.antt =====
-- crates/js-parser/src/token_stream.rs: lexing the rest of the text again from the current token on.
use justscript.Prelude.{
  ℕ, zero, suc, ◌<◌, ◌≡◌, refl, sym, ap, Bool, false, some, List, [], ◌∷◌, ◌++◌, arith, length,
  get_elem?, take, length-append,
}
use justscript.Parser.Stream.{
  Slot, ParserTokenStream, slots, peek, splice_tail, reslash, eof_slot, last_newline,
}
use justscript.Parser.Stream.Position.{IsStream, append-EndsInEof, peek-some}
use justscript.Syntax.Token.{Token, is_trivia}

length-take_lt : (xs : List Slot) (n : ℕ) → n < length xs → length (take n xs) ≡ n
length-take_lt [] n h = elim h [ ]
length-take_lt (x ∷ xs) zero h = refl
length-take_lt (x ∷ xs) (suc n) h = ap suc (length-take_lt xs n (omega arith))

append_assoc : (xs ys zs : List Slot) → (xs ++ ys) ++ zs ≡ xs ++ (ys ++ zs)
append_assoc [] ys zs = refl
append_assoc (x ∷ xs) ys zs = ap {B = List Slot} (λ r. x ∷ r) (append_assoc xs ys zs)

splice_tail-IsStream :
    (tail : List Slot) (s : ParserTokenStream) → IsStream s → IsStream (splice_tail tail s)
unfolding splice_tail
splice_tail-IsStream tail s h = (
  rw (sym (append_assoc (take s.pos s.tokens) tail (eof_slot (last_newline s.tokens) ∷ [])))
      (append-EndsInEof (take s.pos s.tokens ++ tail) (last_newline s.tokens)),
  rw
      (
        length-append (take s.pos s.tokens) (tail ++ eof_slot (last_newline s.tokens) ∷ []),
        length-take_lt s.tokens s.pos h.1,
        length-append tail (eof_slot (last_newline s.tokens) ∷ []),
      )
      (omega arith),
)

get_elem?-splice :
    (xs : List Slot) (n : ℕ) (y : Slot) (ys : List Slot)
    → n < length xs
    → get_elem? (take n xs ++ y ∷ ys) n ≡ some y
get_elem?-splice [] n y ys h = elim h [ ]
get_elem?-splice (x ∷ xs) zero y ys h = refl
get_elem?-splice (x ∷ xs) (suc n) y ys h = get_elem?-splice xs n y ys (omega arith)

get_elem?-before :
    (xs ys : List Slot) (n i : ℕ)
    → n < length xs
    → i < n
    → get_elem? (take n xs ++ ys) i ≡ get_elem? xs i
get_elem?-before [] ys n i h k = elim h [ ]
get_elem?-before (x ∷ xs) ys zero i h k = elim k [ ]
get_elem?-before (x ∷ xs) ys (suc n) zero h k = refl
get_elem?-before (x ∷ xs) ys (suc n) (suc i) h k =
    get_elem?-before xs ys n i (omega arith) (omega arith)

slots-first :
    (p : Bool) (tok : Token) (toks : List Token)
    → is_trivia tok.kind ≡ false
    → (slots p (tok ∷ toks)).0
      ≡ record { token = tok; preceded_by_newline = p } ∷ (slots false toks).0
unfolding slots
slots-first p tok toks k = rw k refl

reslash_kept :
    (tok : Token) (toks : List Token) (s : ParserTokenStream) (slot : Slot)
    → is_trivia tok.kind ≡ false
    → peek s ≡ some slot
    → reslash (tok ∷ toks) s
      ≡ some (
          splice_tail
            (record { token = tok; preceded_by_newline = slot.preceded_by_newline }
              ∷ (slots false toks).0)
            s)
unfolding reslash
reslash_kept tok toks s slot k e =
    rw (e, reslash, slots-first slot.preceded_by_newline tok toks k) refl

splice_tail-pos : (tail : List Slot) (s : ParserTokenStream) → (splice_tail tail s).pos ≡ s.pos
unfolding splice_tail
splice_tail-pos tail s = refl

splice_tail-ctx_stack :
    (tail : List Slot) (s : ParserTokenStream) → (splice_tail tail s).ctx_stack ≡ s.ctx_stack
unfolding splice_tail
splice_tail-ctx_stack tail s = refl

peek-splice_tail :
    (x : Slot) (rest : List Slot) (s : ParserTokenStream)
    → IsStream s
    → peek (splice_tail (x ∷ rest) s) ≡ some x
unfolding peek splice_tail
peek-splice_tail x rest s h =
    get_elem?-splice s.tokens s.pos x (rest ++ eof_slot (last_newline s.tokens) ∷ []) h.1

splice_tail-before :
    (tail : List Slot) (s : ParserTokenStream) (i : ℕ)
    → IsStream s
    → i < s.pos
    → get_elem? (splice_tail tail s).tokens i ≡ get_elem? s.tokens i
unfolding splice_tail
splice_tail-before tail s i h l =
    get_elem?-before s.tokens (tail ++ eof_slot (last_newline s.tokens) ∷ []) s.pos i h.1 l

-- Re-lexing the current token of a stream, where the lexer yields a token that the parser sees
-- first, succeeds and leaves a stream at the same position in the same contexts. That token is now
-- the current one, with the newline flag that the replaced token had, and all tokens in front of the
-- position are kept.
pub reslash_lem :
    (tok : Token) (toks : List Token) (s : ParserTokenStream)
    → is_trivia tok.kind ≡ false
    → IsStream s
    → (slot : Slot) × (t : ParserTokenStream) × (peek s ≡ some slot)
      × (reslash (tok ∷ toks) s ≡ some t)
      × IsStream t
      × (t.pos ≡ s.pos)
      × (t.ctx_stack ≡ s.ctx_stack)
      × (peek t ≡ some (record { token = tok; preceded_by_newline = slot.preceded_by_newline }))
      × ((i : ℕ) → i < s.pos → get_elem? t.tokens i ≡ get_elem? s.tokens i)
reslash_lem tok toks s k h =
    let (slot, e) = peek-some s h in
    let flag = slot.preceded_by_newline in
    let rest = (slots false toks).0 in
    let kept = record { token = tok; preceded_by_newline = flag } ∷ rest in
    (
      slot,
      splice_tail kept s,
      e,
      reslash_kept tok toks s slot k e,
      splice_tail-IsStream kept s h,
      splice_tail-pos kept s,
      splice_tail-ctx_stack kept s,
      peek-splice_tail (record { token = tok; preceded_by_newline = flag }) rest s h,
      (λ i l. splice_tail-before kept s i h l),
    )
