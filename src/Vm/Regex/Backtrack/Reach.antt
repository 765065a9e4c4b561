-- ===== src/Vm/Regex/Backtrack/Reach.antt =====
-- crates/js-vm/src/regex.rs: where the outcomes of every pattern lie.
use justscript.Prelude.{
  ℕ, suc, ◌+◌, ◌-◌, ◌*◌, ◌≤◌, ◌≡◌, refl, Bool, true, false, not, Option, none, some, [], ◌∷◌, arith,
  ltb, leb, ◌==◌, length, get_or, set, All, get_elem?-some_lt, Text, nat_eq, list_eq,
}
use justscript.Vm.Regex.{Ast, Asts, nil, cons, RegexProgram, Caps}
use justscript.Vm.Regex.Chars.{holds_at, char_at}
use justscript.Vm.Regex.Backtrack.{slice}
use justscript.Vm.Regex.Backtrack.Outcomes
use justscript.Vm.Regex.Backtrack.Outcomes.{
  Outcome, reached, broke, ran_out, Outcomes, bind, Choice, chosen, no_match, broken, undecided,
  or_choice, resolve, choose, one, either, star, decide, outcomes, all_outcomes, any_outcomes,
}
use justscript.Vm.Regex.Backtrack.Within.{
  Within, Advances, Within-weaken, All-append, bind-Within, either-Within, if-Within, one-Within,
  star-Within, look-Within,
}

holds_at-some : (test : ℕ → Bool) (o : Option ℕ) → holds_at test o ≡ true → (c : ℕ) × (o ≡ some c)
holds_at-some test none e = absurd (cc)
holds_at-some test (some c) e = (c, refl)

module _ (chars : Text) where
  guard-Within :
      (holds : Bool) (from pos : ℕ) (caps : Caps)
      → from ≤ pos
      → (holds ≡ true → pos ≤ length chars)
      → All (Within (length chars) from) (Outcomes.guard holds pos caps)
  unfolding Outcomes.guard
  guard-Within true from pos caps h k = ((h, k refl), tt)
  guard-Within false from pos caps h k = tt

  step-Within : (test : ℕ → Bool) → Advances (length chars) (Outcomes.step chars test)
  unfolding Advances Outcomes.step
  step-Within test pos caps le =
      guard-Within (holds_at test (char_at chars pos)) pos (pos + 1) caps (omega arith)
        λ e. omega (arith, get_elem?-some_lt chars pos (holds_at-some test (char_at chars pos) e).1)

  same_text-Within :
      (s e pos : ℕ) (caps : Caps)
      → All (Within (length chars) pos) (Outcomes.same_text chars s e pos caps)
  unfolding Outcomes.same_text
  same_text-Within s e pos caps =
      let n = length chars in
      let next = pos + (e - s) in
      if-Within n pos (ltb e s) (broke ∷ []) _ (λ _. (tt, tt))
        λ _.
          if-Within n pos (not (leb next n)) [] _ (λ _. tt)
            λ fits.
              if-Within n pos (ltb n e) (broke ∷ []) _ (λ _. (tt, tt))
                λ _.
                  if-Within n pos (slice chars pos next == slice chars s e) (one next caps) []
                    (λ _. ((omega arith, ground arith), tt)) (λ _. tt)

  same_group-Within : (s e : Option ℕ) → Advances (length chars) (Outcomes.same_group chars s e)
  unfolding Advances Outcomes.same_group
  same_group-Within (some s) (some e) pos caps le = same_text-Within s e pos caps
  same_group-Within (some s) none pos caps le = one-Within _ pos caps le
  same_group-Within none e pos caps le = one-Within _ pos caps le

  backref-Within : (n : ℕ) → Advances (length chars) (Outcomes.backref chars n)
  unfolding Advances Outcomes.backref
  backref-Within n pos caps le =
      if-Within _ pos (leb (length caps) (2 * n + 1)) [] _ (λ _. tt)
        (λ _.
          same_group-Within (get_or caps (2 * n) none) (get_or caps (2 * n + 1) none) pos caps le)

  module _ (self : RegexProgram) where
    mutual
      unfolding Advances outcomes

      outcomes_lem : (a : Ast) → Advances (length chars) (outcomes self chars a)
      outcomes_lem Ast.empty pos caps le = one-Within _ pos caps le
      outcomes_lem (Ast.char c) pos caps le = step-Within _ pos caps le
      outcomes_lem Ast.dot pos caps le = step-Within _ pos caps le
      outcomes_lem (Ast.class r neg) pos caps le = step-Within _ pos caps le
      outcomes_lem Ast.start pos caps le = guard-Within _ pos pos caps (omega arith) (λ _. le)
      outcomes_lem Ast.end pos caps le = guard-Within _ pos pos caps (omega arith) (λ _. le)
      outcomes_lem Ast.word_boundary pos caps le =
          guard-Within _ pos pos caps (omega arith) (λ _. le)
      outcomes_lem Ast.not_word_boundary pos caps le =
          guard-Within _ pos pos caps (omega arith) (λ _. le)
      outcomes_lem (Ast.concat parts) pos caps le = all_outcomes_lem parts pos caps le
      outcomes_lem (Ast.alt alts) pos caps le = any_outcomes_lem alts pos caps le
      outcomes_lem (Ast.star body greedy) pos caps le =
          star-Within _ _ (outcomes_lem body) greedy (suc (length chars)) pos caps le (omega arith)
      outcomes_lem (Ast.plus body greedy) pos caps le =
          bind-Within _ pos _ _ (outcomes_lem body pos caps le) λ p c ge le'.
            Within-weaken _ pos p _ ge (
              if-Within _ p (ltb pos p) _ _
                (λ _.
                  star-Within _ _ (outcomes_lem body) greedy (suc (length chars)) p c le'
                    (omega arith))
                (λ _. one-Within _ p c le'))
      outcomes_lem (Ast.quest body greedy) pos caps le =
          either-Within _ pos greedy _ _ (outcomes_lem body pos caps le) (one-Within _ pos caps le)
      outcomes_lem (Ast.group inner n) pos caps le =
          bind-Within _ pos _ _ (outcomes_lem inner pos (set caps (2 * n) (some pos)) le)
            λ p c ge le'. ((ge, le'), tt)
      outcomes_lem (Ast.look inner ahead positive) pos caps le =
          look-Within _ _ (outcomes_lem inner) ahead positive pos caps le
      outcomes_lem (Ast.backref n) pos caps le = backref-Within n pos caps le

      all_outcomes_lem : (parts : Asts) → Advances (length chars) (all_outcomes self chars parts)
      all_outcomes_lem nil pos caps le = one-Within _ pos caps le
      all_outcomes_lem (cons part parts) pos caps le =
          bind-Within _ pos _ _ (outcomes_lem part pos caps le)
            λ p c ge le'. Within-weaken _ pos p _ ge (all_outcomes_lem parts p c le')

      any_outcomes_lem : (alts : Asts) → Advances (length chars) (any_outcomes self chars alts)
      any_outcomes_lem nil pos caps le = tt
      any_outcomes_lem (cons a alts) pos caps le =
          All-append _ pos _ _ (outcomes_lem a pos caps le) (any_outcomes_lem alts pos caps le)

  -- Every position that a pattern can reach from a position of the text lies within the text and not
  -- before it, and no star of the pattern runs out of rounds.
  pub outcomes-Within :
      (self : RegexProgram) (a : Ast) (pos : ℕ) (caps : Caps)
      → pos ≤ length chars
      → All (Within (length chars) pos) (outcomes self chars a pos caps)
  unfolding Advances
  outcomes-Within self a pos caps le = outcomes_lem self a pos caps le
