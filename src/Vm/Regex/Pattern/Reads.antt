-- ===== src/Vm/Regex/Pattern/Reads.antt =====
-- crates/js-vm/src/regex.rs: what every step of the pattern parser keeps, and how steps compose.
use mathlib.Core.Path.{subst}
use justscript.Prelude.{
  ℕ, suc, ◌+◌, ◌≤◌, ◌<◌, ◌≡◌, refl, sym, ap, ◌∙◌, inl, inr, Bool, true, false, Option, none, some,
  [], ◌∷◌, arith, if◌then◌else◌, Bool-cases, Option-cases, length, All, get_elem?-some_lt, Text,
}
use justscript.Vm.Regex.Pattern.{
  on_char, Parser, Parsed, done, err, panic, starved, ◌>>=◌, peek, is_char, next_is, bump, skip,
  skip_while, greediness,
}

-- A result for which `P` holds, an error or a panic, but never the end of the rounds.
abbrev pub Ends {ℓ} : {A : Type ℓ} → (A → Type 0) → Parsed A → Type 0
Ends P (done a) = P a
Ends P (err _) = Unit
Ends P panic = Unit
Ends P starved = ⊥

abbrev pub NameAtMost : ℕ → Text × ℕ → Type 0
NameAtMost groups (name, num) = num ≤ groups

-- The position is in the pattern, and each name stands for a group that has been counted.
pub record IsParser (p : Parser) : Type 0 where
  pub inside : p.pos ≤ length p.chars
  pub named : All (NameAtMost p.group_count) p.names

-- From one parser to a later one.
pub record Reads (p p' : Parser) : Type 0 where
  pub same : p'.chars ≡ p.chars
  pub forward : p.pos ≤ p'.pos
  pub counted : p.group_count ≤ p'.group_count
  pub valid : IsParser p'

pub Reads-refl : (p : Parser) → IsParser p → Reads p p
Reads-refl p h = record { same = refl; forward = omega arith; counted = omega arith; valid = h }

pub Reads-trans : (p q r : Parser) → Reads p q → Reads q r → Reads p r
Reads-trans p q r h k = record {
  same = k.same ∙ h.same;
  forward = omega (arith, h.forward, k.forward);
  counted = omega (arith, h.counted, k.counted);
  valid = k.valid;
}

pub bind-Ends {ℓ κ} :
    {A : Type ℓ} {B : Type κ} (P : A → Type 0) (Q : B → Type 0) (r : Parsed A) (f : A → Parsed B)
    → Ends P r
    → ((a : A) → P a → Ends Q (f a))
    → Ends Q (r >>= f)
bind-Ends P Q (done a) f h k = k a h
bind-Ends P Q (err _) f h k = tt
bind-Ends P Q panic f h k = tt
bind-Ends P Q starved f h k = h

pub if-Ends {ℓ} :
    {A : Type ℓ} (P : A → Type 0) (b : Bool) (r s : Parsed A)
    → (b ≡ true → Ends P r)
    → (b ≡ false → Ends P s)
    → Ends P (if b then r else s)
if-Ends P true r s h k = h refl
if-Ends P false r s h k = k refl

pub on_char-Ends {ℓ} :
    {A : Type ℓ} (P : A → Type 0) (o : Option ℕ) (r : Parsed A) (f : ℕ → Parsed A)
    → (o ≡ none → Ends P r)
    → ((c : ℕ) → o ≡ some c → Ends P (f c))
    → Ends P (on_char o r f)
on_char-Ends P none r f h k = h refl
on_char-Ends P (some c) r f h k = k c refl

pub Ends-weaken {ℓ} :
    {A : Type ℓ} (P Q : A → Type 0) (r : Parsed A) → ((a : A) → P a → Q a) → Ends P r → Ends Q r
Ends-weaken P Q (done a) f h = f a h
Ends-weaken P Q (err _) f h = tt
Ends-weaken P Q panic f h = tt
Ends-weaken P Q starved f h = h

pub next_is-peek : (c : ℕ) (o : Option ℕ) → is_char c o ≡ true → (d : ℕ) × (o ≡ some d)
next_is-peek c none h = absurd (cc)
next_is-peek c (some d) h = (d, refl)

pub skip-none : (p : Parser) → peek p ≡ none → skip p ≡ p
unfolding skip bump
skip-none p e = rw (e, skip, bump) refl

pub skip-some : (p : Parser) (c : ℕ) → peek p ≡ some c → (skip p).pos ≡ p.pos + 1
unfolding skip bump
skip-some p c e = rw (e, skip, bump) refl

pub peek_lt : (p : Parser) (c : ℕ) → peek p ≡ some c → p.pos < length p.chars
unfolding peek
peek_lt p c e = get_elem?-some_lt p.chars p.pos e

bumped : Parser → Parser
bumped p = record p { pos = p.pos + 1 }

skip-bumped : (p : Parser) (c : ℕ) → peek p ≡ some c → skip p ≡ bumped p
unfolding skip bump bumped
skip-bumped p c e = rw (e, skip, bump) refl

bumped-Reads : (p : Parser) (c : ℕ) → peek p ≡ some c → IsParser p → Reads p (bumped p)
unfolding bumped
bumped-Reads p c e h = record {
  same = refl;
  forward = omega arith;
  counted = omega arith;
  valid = record { inside = omega (arith, peek_lt p c e); named = h.named };
}

pub skip-Reads : (p : Parser) → IsParser p → Reads p (skip p)
skip-Reads p h = elim (Option-cases (peek p)) [
  | inl e ↦ subst (Reads p) (sym (skip-none p e)) (Reads-refl p h)
  | inr (c, e) ↦ subst (Reads p) (sym (skip-bumped p c e)) (bumped-Reads p c e h)
]

pub skip_while-Reads :
    (test : ℕ → Bool) (cs : Text) (p : Parser) → IsParser p → Reads p (skip_while test cs p)
unfolding skip_while
skip_while-Reads test [] p h = Reads-refl p h
skip_while-Reads test (c ∷ cs) p h = elim (Bool-cases (test c)) [
  | inl e ↦
      let one = skip-Reads p h in
      rw e (Reads-trans p (skip p) _ one (skip_while-Reads test cs (skip p) one.valid))
  | inr e ↦ rw e (Reads-refl p h)
]

pub greediness-Reads : (p : Parser) → IsParser p → Reads p (greediness p).1
unfolding greediness
greediness-Reads p h = elim (Bool-cases (next_is b'?' p)) [
  | inl e ↦ rw e (skip-Reads p h)
  | inr e ↦ rw e (Reads-refl p h)
]

-- A loop that reads a character in each round has rounds for the characters that are left.
pub rounds_left :
    (p q : Parser) (rounds : ℕ)
    → Reads p q
    → p.pos < q.pos
    → length p.chars < p.pos + suc rounds
    → length q.chars < q.pos + rounds
rounds_left p q rounds h lt fuel = omega (arith, ap length h.same)
