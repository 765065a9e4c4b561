-- ===== src/Lexer/Numeric/Separators.antt =====
-- crates/js-lexer/src/validate.rs: where a separator may stand.
use mathlib.Core.Option.{some-injective}
use justscript.Lexer.Numeric.{separators_from, separators_ok, digit_first}
use justscript.Prelude.{
  ℕ, zero, suc, ◌≡◌, refl, sym, ap, ◌∙◌, ◌↔◌, Bool, true, false, Option, none, some, [], ◌∷◌, arith,
  get_elem?, Text,
}

-- Whether there is a character and it is a digit.
abbrev pub digit_at : (ℕ → Bool) → Option ℕ → Bool
digit_at digit none = false
digit_at digit (some c) = digit c

-- Whether a digit stands in front of the index, where `previous` says so for index 0.
abbrev pub before : (ℕ → Bool) → Bool → Text → ℕ → Bool
before digit previous s zero = previous
before digit previous s (suc i) = digit_at digit (get_elem? s i)

-- Every separator stands between two digits.
abbrev pub Flanked : (ℕ → Bool) → Bool → Text → Type 0
Flanked digit previous s =
    (i : ℕ)
    → get_elem? s i ≡ some b'_'
    → (before digit previous s i ≡ true) × (digit_at digit (get_elem? s (suc i)) ≡ true)

digit_first-at :
    (digit : ℕ → Bool) (s : Text) → digit_first digit s ≡ digit_at digit (get_elem? s 0)
digit_first-at digit [] = refl
digit_first-at digit (c ∷ cs) = refl

before-suc :
    (digit : ℕ → Bool) (previous : Bool) (c : ℕ) (cs : Text) (i : ℕ)
    → before digit previous (c ∷ cs) (suc i) ≡ before digit (digit c) cs i
before-suc digit previous c cs zero = refl
before-suc digit previous c cs (suc i) = refl

Flanked-tail :
    (digit : ℕ → Bool) (previous : Bool) (c : ℕ) (cs : Text)
    → Flanked digit previous (c ∷ cs)
    → Flanked digit (digit c) cs
Flanked-tail digit previous c cs h i e =
    let (b, a) = h (suc i) e in (sym (before-suc digit previous c cs i) ∙ b, a)

separators_from-step :
    (digit : ℕ → Bool) (previous : Bool) (c : ℕ) (cs : Text)
    → (separators_from digit previous (c ∷ cs) ≡ true) ↔ (
        (c ≡ b'_' → (previous ≡ true) × (digit_at digit (get_elem? cs 0) ≡ true))
        × (separators_from digit (digit c) cs ≡ true))
unfolding separators_from
separators_from-step digit previous c cs = ground (arith, digit_first-at digit cs)

separators_from-nil :
    (digit : ℕ → Bool) (previous : Bool) → separators_from digit previous [] ≡ true
unfolding separators_from
separators_from-nil digit previous = refl

Flanked-cons :
    (digit : ℕ → Bool) (previous : Bool) (c : ℕ) (cs : Text)
    → (c ≡ b'_' → (previous ≡ true) × (digit_at digit (get_elem? cs 0) ≡ true))
    → Flanked digit (digit c) cs
    → Flanked digit previous (c ∷ cs)
Flanked-cons digit previous c cs first rest zero e = first (some-injective _ _ e)
Flanked-cons digit previous c cs first rest (suc i) e =
    let (b, a) = rest i e in (before-suc digit previous c cs i ∙ b, a)

separators_from_iff :
    (digit : ℕ → Bool) (previous : Bool) (s : Text)
    → (separators_from digit previous s ≡ true) ↔ Flanked digit previous s
separators_from_iff digit previous [] =
    (λ e i h. absurd (cc), λ h. separators_from-nil digit previous)
separators_from_iff digit previous (c ∷ cs) =
    let step = separators_from-step digit previous c cs in
    let rest = separators_from_iff digit (digit c) cs in
    (
      (λ e. let (first, later) = step.0 e in Flanked-cons digit previous c cs first (rest.0 later)),
      (λ h. step.1 ((λ e. h 0 (ap some e)), rest.1 (Flanked-tail digit previous c cs h))),
    )

-- `separators_ok` accepts a text exactly if every `_` in it stands between two characters that
-- satisfy the digit test, so never at its start or end.
pub separators_ok_iff :
    (digit : ℕ → Bool) (s : Text) → (separators_ok digit s ≡ true) ↔ Flanked digit false s
unfolding separators_ok
separators_ok_iff digit s = separators_from_iff digit false s
