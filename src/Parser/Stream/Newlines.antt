-- ===== src/Parser/Stream/Newlines.antt =====
-- crates/js-parser/src/token_stream.rs, `new`: what the skipped trivia leave behind.
use mathlib.Core.List.{append-nil}
use justscript.Prelude.{
  ◌≡◌, refl, sym, ap, ◌∙◌, Bool, true, false, ◌||◌, List, [], ◌∷◌, ◌++◌, arith, All,
}
use justscript.Parser.Stream.{Slot, slots, new, eof_slot, is_newline}
use justscript.Syntax.Token.{Token, is_trivia}

-- Whether a token of the gap ends a line.
unfoldable pub any_newline : List Token → Bool
unfolding is_newline
any_newline [] = false
any_newline (t ∷ ts) = is_newline t.kind || any_newline ts

-- A token that the parser sees, with the trivia in front of it.
pub record Spaced : Type 0 where
  pub gap : List Token
  pub token : Token

abbrev pub IsSpaced : Spaced → Type 0
IsSpaced s = All (λ t. is_trivia t.kind ≡ true) s.gap × (is_trivia s.token.kind ≡ false)

-- The text that the spaced tokens and the trivia behind them make up.
unfoldable pub flatten : List Spaced → List Token → List Token
flatten [] tail = tail
flatten (s ∷ ss) tail = s.gap ++ s.token ∷ flatten ss tail

unfoldable pub to_slots : List Spaced → List Slot
unfolding any_newline
to_slots [] = []
to_slots (s ∷ ss) =
    record { token = s.token; preceded_by_newline = any_newline s.gap } ∷ to_slots ss

or-or : (a b c : Bool) → (a || (b || c)) ≡ ((a || b) || c)
or-or a b c = ground arith

or-false : (a : Bool) → (a || false) ≡ a
or-false a = ground arith

slots-trivia :
    (p : Bool) (t : Token) (post : List Token)
    → is_trivia t.kind ≡ true
    → slots p (t ∷ post) ≡ slots (p || is_newline t.kind) post
unfolding slots
slots-trivia p t post h = rw h refl

slots-kept :
    (p : Bool) (t : Token) (post : List Token)
    → is_trivia t.kind ≡ false
    → slots p (t ∷ post)
      ≡ (record { token = t; preceded_by_newline = p } ∷ (slots false post).0, (slots false post).1)
unfolding slots
slots-kept p t post h = rw h refl

slots-gap :
    (p : Bool) (gap post : List Token)
    → All (λ t. is_trivia t.kind ≡ true) gap
    → slots p (gap ++ post) ≡ slots (p || any_newline gap) post
unfolding any_newline
slots-gap p [] post h = rw (or-false p) refl
slots-gap p (t ∷ gap) post h =
    rw
      (
        slots-trivia p t (gap ++ post) h.0,
        slots-gap (p || is_newline t.kind) gap post h.1,
        or-or p (is_newline t.kind) (any_newline gap),
      )
      refl

slots-tail :
    (tail : List Token)
    → All (λ t. is_trivia t.kind ≡ true) tail
    → slots false tail ≡ ([], any_newline tail)
unfolding slots any_newline
slots-tail tail h = sym (ap (slots false) (append-nil tail)) ∙ slots-gap false tail [] h

slots-flatten :
    (ss : List Spaced) (tail : List Token)
    → All IsSpaced ss
    → All (λ t. is_trivia t.kind ≡ true) tail
    → slots false (flatten ss tail) ≡ (to_slots ss, any_newline tail)
unfolding flatten to_slots
slots-flatten [] tail h k = slots-tail tail k
slots-flatten (s ∷ ss) tail h k =
    rw
      (
        slots-gap false s.gap (s.token ∷ flatten ss tail) h.0.0,
        slots-kept (any_newline s.gap) s.token (flatten ss tail) h.0.1,
        slots-flatten ss tail h.1 k,
      )
      refl

-- Of a text made of tokens that the parser sees, each behind its own trivia, and of trivia at the
-- end, `new` keeps exactly those tokens in order. A token's newline flag is true exactly if one of
-- the trivia directly in front of it ends a line, and the end-of-file token's if one at the end does.
pub new-flatten :
    (ss : List Spaced) (tail : List Token)
    → All IsSpaced ss
    → All (λ t. is_trivia t.kind ≡ true) tail
    → (new (flatten ss tail)).tokens ≡ to_slots ss ++ eof_slot (any_newline tail) ∷ []
unfolding new
new-flatten ss tail h k = rw (slots-flatten ss tail h k) refl
