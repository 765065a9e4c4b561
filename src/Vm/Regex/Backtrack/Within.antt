-- ===== src/Vm/Regex/Backtrack/Within.antt =====
-- crates/js-vm/src/regex.rs: where the outcomes of a pattern lie, so that no star runs out of rounds.
use justscript.Prelude.{
  ℕ, zero, suc, ◌+◌, ◌≤◌, ◌<◌, ◌≡◌, refl, Bool, true, false, List, [], ◌∷◌, ◌++◌, arith, ltb,
  if◌then◌else◌, ltb→lt, ◌==◌, All, nat_eq, list_eq,
}
use justscript.Vm.Regex.{Caps}
use justscript.Vm.Regex.Backtrack.Outcomes
use justscript.Vm.Regex.Backtrack.Outcomes.{
  Outcome, reached, broke, ran_out, Outcomes, bind, Choice, chosen, no_match, broken, undecided,
  or_choice, resolve, choose, one, either, star, decide, outcomes, all_outcomes, any_outcomes,
}

-- `o` is no star out of rounds, and a position that it reaches is in the text and not before `from`.
abbrev pub Within : ℕ → ℕ → Outcome → Type 0
Within n from (reached p c) = (from ≤ p) × (p ≤ n)
Within n from broke = Unit
Within n from ran_out = ⊥

-- Every outcome from a position of the text lies within it, after the position.
unfoldable pub Advances : ℕ → Outcomes → Type 0
Advances n o = (pos : ℕ) (caps : Caps) → pos ≤ n → All (Within n pos) (o pos caps)

module _ (n from : ℕ) where
  pub All-append :
      (xs ys : List Outcome)
      → All (Within n from) xs
      → All (Within n from) ys
      → All (Within n from) (xs ++ ys)
  All-append [] ys h k = k
  All-append (x ∷ xs) ys h k = (h.0, All-append xs ys h.1 k)

  pub Within-weaken :
      (later : ℕ) (xs : List Outcome)
      → from ≤ later
      → All (Within n later) xs
      → All (Within n from) xs
  Within-weaken later [] h k = k
  Within-weaken later (reached p c ∷ xs) h k = ((omega arith, k.0.1), Within-weaken later xs h k.1)
  Within-weaken later (broke ∷ xs) h k = (k.0, Within-weaken later xs h k.1)
  Within-weaken later (ran_out ∷ xs) h k = absurd k.0

  pub bind-Within :
      (xs : List Outcome) (f : Outcomes)
      → All (Within n from) xs
      → ((p : ℕ) (c : Caps) → from ≤ p → p ≤ n → All (Within n from) (f p c))
      → All (Within n from) (bind xs f)
  unfolding bind
  bind-Within [] f h k = tt
  bind-Within (reached p c ∷ xs) f h k =
      All-append (f p c) (bind xs f) (k p c h.0.0 h.0.1) (bind-Within xs f h.1 k)
  bind-Within (broke ∷ xs) f h k = (h.0, bind-Within xs f h.1 k)
  bind-Within (ran_out ∷ xs) f h k = absurd h.0

  pub either-Within :
      (greedy : Bool) (xs ys : List Outcome)
      → All (Within n from) xs
      → All (Within n from) ys
      → All (Within n from) (either greedy xs ys)
  unfolding either
  either-Within true xs ys h k = All-append xs ys h k
  either-Within false xs ys h k = All-append ys xs k h

  pub if-Within :
      (b : Bool) (xs ys : List Outcome)
      → (b ≡ true → All (Within n from) xs)
      → (b ≡ false → All (Within n from) ys)
      → All (Within n from) (if b then xs else ys)
  if-Within true xs ys h k = h refl
  if-Within false xs ys h k = k refl

decide-Within :
    (n at from : ℕ) (os : List Outcome) (hits : ℕ → Caps → List Outcome) (misses : List Outcome)
    → All (Within n at) os
    → ((p : ℕ) (c : Caps) → All (Within n from) (hits p c))
    → All (Within n from) misses
    → All (Within n from) (decide os hits misses)
unfolding decide choose resolve or_choice
decide-Within n at from [] hits misses h e f = f
decide-Within n at from (reached p c ∷ os) hits misses h e f = e p c
decide-Within n at from (broke ∷ os) hits misses h e f = (tt, tt)
decide-Within n at from (ran_out ∷ os) hits misses h e f = absurd h.0

pub one-Within : (n pos : ℕ) (caps : Caps) → pos ≤ n → All (Within n pos) (one pos caps)
one-Within n pos caps h = ((omega arith, h), tt)

module _ (n : ℕ) (o : Outcomes) (h : Advances n o) where
  -- Each round leaves less of the text, so `rounds` beyond it are enough.
  pub star-Within :
      (greedy : Bool) (rounds pos : ℕ) (caps : Caps)
      → pos ≤ n
      → n < pos + rounds
      → All (Within n pos) (star o greedy rounds pos caps)
  unfolding Advances star
  star-Within greedy zero pos caps le fuel = absurd (omega arith)
  star-Within greedy (suc rounds) pos caps le fuel =
      either-Within n pos greedy _ _
        (bind-Within n pos (o pos caps) _ (h pos caps le) λ p c ge le'.
          if-Within n pos (ltb pos p) _ []
            (λ lt.
              Within-weaken n pos p _ ge
                (star-Within greedy rounds p c le' (omega (arith, ltb→lt pos p lt))))
            (λ _. tt))
        (one-Within n pos caps le)

  behind_positive-Within :
      (sp pos : ℕ) (caps : Caps)
      → sp ≤ pos
      → pos ≤ n
      → All (Within n pos) (Outcomes.behind_positive o sp pos caps)
  unfolding Advances Outcomes.behind_positive
  behind_positive-Within zero pos caps le le' =
      decide-Within n 0 pos (o 0 caps) _ [] (h 0 caps (omega arith))
        (λ p c. if-Within n pos (p == pos) _ [] (λ _. one-Within n pos c le') (λ _. tt)) tt
  behind_positive-Within (suc sp) pos caps le le' =
      let earlier = behind_positive-Within sp pos caps (omega arith) le' in
      decide-Within n (suc sp) pos (o (suc sp) caps) _ _ (h (suc sp) caps (omega arith))
        (λ p c. if-Within n pos (p == pos) _ _ (λ _. one-Within n pos c le') (λ _. earlier)) earlier

  behind_negative-Within :
      (sp left pos : ℕ) (caps : Caps)
      → sp + left ≤ pos
      → pos ≤ n
      → All (Within n pos) (Outcomes.behind_negative o sp left pos caps)
  unfolding Advances Outcomes.behind_negative
  behind_negative-Within sp zero pos caps le le' =
      decide-Within n sp pos (o sp caps) _ _ (h sp caps (omega arith))
        (λ p c. if-Within n pos (p == pos) [] _ (λ _. tt) (λ _. one-Within n pos caps le'))
        (one-Within n pos caps le')
  behind_negative-Within sp (suc left) pos caps le le' =
      let later = behind_negative-Within (suc sp) left pos caps (omega arith) le' in
      decide-Within n sp pos (o sp caps) _ _ (h sp caps (omega arith))
        (λ p c. if-Within n pos (p == pos) [] _ (λ _. tt) (λ _. later)) later

  pub look-Within : (ahead positive : Bool) → Advances n (Outcomes.look o ahead positive)
  unfolding Advances Outcomes.look
  look-Within true true pos caps le =
      decide-Within n pos pos (o pos caps) _ [] (h pos caps le) (λ p c. one-Within n pos c le) tt
  look-Within true false pos caps le =
      decide-Within n pos pos (o pos caps) _ _ (h pos caps le) (λ p c. tt)
        (one-Within n pos caps le)
  look-Within false true pos caps le = behind_positive-Within pos pos caps (omega arith) le
  look-Within false false pos caps le = behind_negative-Within 0 pos pos caps (omega arith) le
