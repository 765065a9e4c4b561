-- ===== src/Vm/Regex/Backtrack/Repeats.antt =====
-- crates/js-vm/src/regex.rs: what a bounded repetition can do, once it is written out.
use justscript.Prelude.{
  ℕ, zero, suc, ◌-◌, ◌≡◌, refl, sym, ap, ◌∙◌, Bool, Option, none, some, List, [], ◌∷◌, Text,
}
use justscript.Vm.Regex.{Ast, Asts, nil, cons, RegexProgram, Caps}
use justscript.Vm.Regex.Repeat.{push_copies, from_parts, optional_parts, expand_repeat}
use justscript.Vm.Regex.Backtrack.Outcomes.{
  Outcome, reached, broke, ran_out, Outcomes, bind, one, outcomes, all_outcomes,
}

-- `n` times `o`, and then `later`.
unfoldable pub times : ℕ → Outcomes → Outcomes → Outcomes
unfolding bind
times zero o later pos caps = later pos caps
times (suc n) o later pos caps = bind (o pos caps) (times n o later)

bind-one : (os : List Outcome) → bind os one ≡ os
unfolding bind
bind-one [] = refl
bind-one (reached p c ∷ os) = ap (◌∷◌ (reached p c)) (bind-one os)
bind-one (broke ∷ os) = ap (◌∷◌ broke) (bind-one os)
bind-one (ran_out ∷ os) = ap (◌∷◌ ran_out) (bind-one os)

bind-cong :
    (os : List Outcome) (f g : Outcomes)
    → ((p : ℕ) (c : Caps) → f p c ≡ g p c)
    → bind os f ≡ bind os g
unfolding bind
bind-cong [] f g h = refl
bind-cong (reached p c ∷ os) f g h = rw (h p c, bind-cong os f g h) refl
bind-cong (broke ∷ os) f g h = ap (◌∷◌ broke) (bind-cong os f g h)
bind-cong (ran_out ∷ os) f g h = ap (◌∷◌ ran_out) (bind-cong os f g h)

module _ (self : RegexProgram) (chars : Text) where
  from_parts-outcomes :
      (parts : Asts) (pos : ℕ) (caps : Caps)
      → outcomes self chars (from_parts parts) pos caps ≡ all_outcomes self chars parts pos caps
  unfolding from_parts outcomes
  from_parts-outcomes nil pos caps = refl
  from_parts-outcomes (cons a nil) pos caps = sym (bind-one (outcomes self chars a pos caps))
  from_parts-outcomes (cons a (cons b parts)) pos caps = refl

  push_copies-outcomes :
      (n : ℕ) (a : Ast) (parts : Asts) (pos : ℕ) (caps : Caps)
      → all_outcomes self chars (push_copies n a parts) pos caps
        ≡ times n (outcomes self chars a) (all_outcomes self chars parts) pos caps
  unfolding push_copies times outcomes
  push_copies-outcomes zero a parts pos caps = refl
  push_copies-outcomes (suc n) a parts pos caps =
      bind-cong (outcomes self chars a pos caps) _ _ (push_copies-outcomes n a parts)

  times-cong :
      (n : ℕ) (o : Outcomes) (f g : Outcomes) (pos : ℕ) (caps : Caps)
      → ((p : ℕ) (c : Caps) → f p c ≡ g p c)
      → times n o f pos caps ≡ times n o g pos caps
  unfolding times
  times-cong zero o f g pos caps h = h pos caps
  times-cong (suc n) o f g pos caps h = bind-cong (o pos caps) _ _ (λ p c. times-cong n o f g p c h)

  -- What may follow the copies that a repetition requires.
  unfoldable pub optional : Ast → ℕ → Option ℕ → Bool → Outcomes
  unfolding outcomes times
  optional a least none greedy = outcomes self chars (Ast.star a greedy)
  optional a least (some most) greedy =
      times (most - least) (outcomes self chars (Ast.quest a greedy)) one

  optional_parts-outcomes :
      (a : Ast) (least : ℕ) (most : Option ℕ) (greedy : Bool) (pos : ℕ) (caps : Caps)
      → all_outcomes self chars (optional_parts a least most greedy) pos caps
        ≡ optional a least most greedy pos caps
  unfolding optional_parts optional outcomes
  optional_parts-outcomes a least none greedy pos caps =
      bind-one (outcomes self chars (Ast.star a greedy) pos caps)
  optional_parts-outcomes a least (some most) greedy pos caps =
      push_copies-outcomes (most - least) (Ast.quest a greedy) nil pos caps

  -- A repetition of at least `least` and at most `most` copies matches what `least` copies match
  -- followed by a star, where there is no most, or by `most - least` optional copies.
  pub expand_repeat-outcomes :
      (a : Ast) (least : ℕ) (most : Option ℕ) (greedy : Bool) (pos : ℕ) (caps : Caps)
      → outcomes self chars (expand_repeat a least most greedy) pos caps
        ≡ times least (outcomes self chars a) (optional a least most greedy) pos caps
  unfolding expand_repeat
  expand_repeat-outcomes a least most greedy pos caps =
      from_parts-outcomes (push_copies least a (optional_parts a least most greedy)) pos caps
      ∙ push_copies-outcomes least a (optional_parts a least most greedy) pos caps
      ∙ times-cong least (outcomes self chars a) _ _ pos caps
          (optional_parts-outcomes a least most greedy)
