-- ===== src/Lexer/Punctuators/Munch.antt =====
-- crates/js-lexer/src/lexer.rs: `eat_punctuator` takes the longest punctuator.
use justscript.Lexer.Cursor.View.{bump-IsBefore, peek_ahead4-pad, IsBefore, pad}
use justscript.Lexer.Cursor.{bump, peek_ahead4, Cursor}
use native.Mathlib.Decide.{dec_le}
use justscript.Prelude.{
  ℕ, zero, suc, ◌≤◌, ◌<◌, ◌≡◌, refl, ap, ◌∙◌, ◌≢◌, inl, inr, Option, none, some, List, [], ◌∷◌,
  ◌++◌, arith, Option-cases, list_beq_iff, length, take, drop, All, Text, nat_eq, list_eq,
}
use justscript.Syntax.Punctuator.{Punctuator, as_str}
use justscript.Lexer.Punctuators.{
  eat_punctuator, bumps, eat_longest, spellings, find_punctuator, match_punctuator,
}

abbrev IsSpelled : Text × Punctuator → Type 0
IsSpelled e = as_str e.1 ≡ e.0

find_punctuator-IsSpelled :
    (table : List (Text × Punctuator)) (s : Text) (p : Punctuator)
    → All IsSpelled table
    → find_punctuator s table ≡ some p
    → as_str p ≡ s
unfolding find_punctuator
find_punctuator-IsSpelled [] s p h e = absurd (cc)
find_punctuator-IsSpelled ((t, q) ∷ rest) s p h e =
    ground (arith, h.0, list_beq_iff t s, find_punctuator-IsSpelled rest s p h.1)

spellings-IsSpelled : All IsSpelled spellings
unfolding as_str
spellings-IsSpelled = ground arith

-- What the lexer recognises is spelled as the punctuator that it returns.
pub as_str-match_punctuator :
    (s : Text) {p : Punctuator} → match_punctuator s ≡ some p → as_str p ≡ s
unfolding match_punctuator
as_str-match_punctuator s {p} h = find_punctuator-IsSpelled spellings s p spellings-IsSpelled h

-- Every punctuator but `@` is recognised by its spelling.
pub match_punctuator-as_str :
    (p : Punctuator) → p ≢ Punctuator.at → match_punctuator (as_str p) ≡ some p
unfolding match_punctuator as_str
match_punctuator-as_str Punctuator.at h = absurd (h refl)
match_punctuator-as_str Punctuator.l_brace h = refl
match_punctuator-as_str _ h = refl

abbrev IsPos : Text → Type 0
IsPos = All (λ c. 0 < c)

as_str-IsPos : (p : Punctuator) → IsPos (as_str p)
unfolding as_str
as_str-IsPos Punctuator.at = omega arith
as_str-IsPos _ = omega arith

length-as_str : (p : Punctuator) → (0 < length (as_str p)) × (length (as_str p) ≤ 4)
unfolding as_str
length-as_str Punctuator.at = omega arith
length-as_str _ = omega arith

take-pad : (n m : ℕ) (s : Text) → n ≤ m → take n (pad m s) ≡ pad n s
take-pad zero m s h = refl
take-pad (suc n) zero s h = absurd (omega arith)
take-pad (suc n) (suc m) [] h = ap (◌∷◌ 0) (take-pad n m [] (omega arith))
take-pad (suc n) (suc m) (c ∷ cs) h = ap (◌∷◌ c) (take-pad n m cs (omega arith))

length-pad : (n : ℕ) (s : Text) → length (pad n s) ≡ n
length-pad zero s = refl
length-pad (suc n) [] = ap suc (length-pad n [])
length-pad (suc n) (c ∷ cs) = ap suc (length-pad n cs)

-- A window with no NUL in it is text.
pad-IsPos : (n : ℕ) (s : Text) → IsPos (pad n s) → s ≡ pad n s ++ drop n s
pad-IsPos zero s h = refl
pad-IsPos (suc n) [] h = absurd (omega (arith, h.0))
pad-IsPos (suc n) (c ∷ cs) h = ap (◌∷◌ c) (pad-IsPos n cs h.1)

pad-append : (s t : Text) → pad (length s) (s ++ t) ≡ s
pad-append [] t = refl
pad-append (c ∷ cs) t = ap (◌∷◌ c) (pad-append cs t)

bumps-IsBefore :
    (s rest : Text) (c : Cursor) → IsBefore (s ++ rest) c → IsBefore rest (bumps (length s) c)
unfolding bumps
bumps-IsBefore [] rest c v = v
bumps-IsBefore (x ∷ s) rest c v =
    bumps-IsBefore s rest (bump c).1 (bump-IsBefore x (s ++ rest) c v).3

-- The punctuator `p` stands at the head of the text.
abbrev pub Heads : Punctuator → Text → Type 0
Heads p s = (rest : Text) × (s ≡ as_str p ++ rest)

-- What `eat_punctuator` has to do before `text`, for punctuators of at most `n` characters.
abbrev pub Munches : ℕ → Text → Cursor → Option Punctuator × Cursor → Type 0
Munches n text c (none, c') =
    (c' ≡ c) × ((q : Punctuator) → q ≢ Punctuator.at → length (as_str q) ≤ n → ¬ Heads q text)
Munches n text c (some p, c') =
    (rest : Text) × (text ≡ as_str p ++ rest)
    × IsBefore rest c'
    × ((q : Punctuator)
        → q ≢ Punctuator.at
        → length (as_str q) ≤ n
        → Heads q text
        → length (as_str q) ≤ length (as_str p))

module _ (text : Text) (c : Cursor) (v : IsBefore text c) where
  window : (n : ℕ) → n ≤ 4 → take n (peek_ahead4 c) ≡ pad n text
  window n h = rw (peek_ahead4-pad text c v) (take-pad n 4 text h)

  window-Heads :
      (n : ℕ) (q : Punctuator)
      → n ≤ 4
      → length (as_str q) ≡ n
      → Heads q text
      → take n (peek_ahead4 c) ≡ as_str q
  window-Heads n q h l (rest, e) = rw (window n h, e, ← l) (pad-append (as_str q) rest)

  munched :
      (n : ℕ) {p : Punctuator}
      → suc n ≤ 4
      → match_punctuator (take (suc n) (peek_ahead4 c)) ≡ some p
      → Munches (suc n) text c (some p, bumps (suc n) c)
  munched n {p} h e =
      let spelled : as_str p ≡ pad (suc n) text = as_str-match_punctuator _ e ∙ window (suc n) h in
      let rest = drop (suc n) text in
      let splits : text ≡ as_str p ++ rest =
        rw spelled (pad-IsPos (suc n) text (rw spelled at (as_str-IsPos p))) in
      let long : length (as_str p) ≡ suc n = rw spelled (length-pad (suc n) text) in
      (
        rest,
        splits,
        rw long at (bumps-IsBefore (as_str p) rest c (rw splits at v)),
        λ q ne l heads. omega arith,
      )

  Munches-suc :
      (n : ℕ) (r : Option Punctuator × Cursor)
      → ((q : Punctuator) → q ≢ Punctuator.at → length (as_str q) ≡ suc n → ¬ Heads q text)
      → Munches n text c r
      → Munches (suc n) text c r
  Munches-suc n (none, c') free (same, less) = (
    same,
    λ q ne l heads. elim (dec_le (length (as_str q)) n) [
      | yes k ↦ less q ne k heads
      | no k ↦ free q ne (omega arith) heads
    ],
  )
  Munches-suc n (some p, c') free (rest, splits, before, less) = (
    rest,
    splits,
    before,
    λ q ne l heads. elim (dec_le (length (as_str q)) n) [
      | yes k ↦ less q ne k heads
      | no k ↦ absurd (free q ne (omega arith) heads)
    ],
  )

  eat_longest-Munches : (n : ℕ) → n ≤ 4 → Munches n text c (eat_longest n c)
  unfolding eat_longest
  eat_longest-Munches zero h = (refl, λ q ne l heads. absurd (omega (arith, (length-as_str q).0)))
  eat_longest-Munches (suc n) h =
      elim (Option-cases (match_punctuator (take (suc n) (peek_ahead4 c)))) [
        | inr (p, e) ↦ rw (e, eat_longest) (munched n h e)
        | inl e ↦
            rw (e, eat_longest)
              (Munches-suc n (eat_longest n c)
                (λ q ne l heads.
                  cc (match_punctuator-as_str q ne, window-Heads (suc n) q h l heads, e))
                (eat_longest-Munches n (omega arith)))
      ]

  -- Before any text `eat_punctuator` takes a punctuator with which the text begins, the longest of
  -- them (`@` apart), and leaves the cursor behind it; or there is none, and the cursor stays.
  pub eat_punctuator-Munches : Munches 4 text c (eat_punctuator c)
  unfolding eat_punctuator
  eat_punctuator-Munches = eat_longest-Munches 4 (omega arith)
