-- ===== src/Vm/Regex/Backtrack/Refines.antt =====
-- crates/js-vm/src/regex.rs: the continuations try the outcomes of a pattern in their order.
use justscript.Prelude.{ℕ, suc, ◌≡◌, sym, length, Text}
use justscript.Vm.Regex.{Ast, Asts, nil, cons, RegexProgram, Caps}
use justscript.Vm.Regex.Backtrack.{Cont, match_at, m_concat, match_alt}
use justscript.Vm.Regex.Backtrack.Outcomes.{choose, outcomes, all_outcomes, any_outcomes}
use justscript.Vm.Regex.Backtrack.Views.{
  view, follow, Implements, choose-one, Implements-bind, guard-Implements, step-Implements,
  nothing-left, view-retry-either,
}
use justscript.Vm.Regex.Backtrack.Helpers.{
  m_star-Implements, match_plus-Implements, match_quest-Implements, match_group-Implements,
  m_look-Implements, backref-Implements,
}

module _ (self : RegexProgram) (chars : Text) where
  mutual
    unfolding Implements match_at outcomes

    match_at_lem : (a : Ast) → Implements (match_at self chars a) (outcomes self chars a)
    match_at_lem Ast.empty pos caps cont = sym (choose-one (follow cont) pos caps)
    match_at_lem (Ast.char c) pos caps cont = step-Implements chars _ pos caps cont
    match_at_lem Ast.dot pos caps cont = step-Implements chars _ pos caps cont
    match_at_lem (Ast.class r neg) pos caps cont = step-Implements chars _ pos caps cont
    match_at_lem Ast.start pos caps cont = guard-Implements _ pos caps cont
    match_at_lem Ast.end pos caps cont = guard-Implements _ pos caps cont
    match_at_lem Ast.word_boundary pos caps cont = guard-Implements _ pos caps cont
    match_at_lem Ast.not_word_boundary pos caps cont = guard-Implements _ pos caps cont
    match_at_lem (Ast.concat parts) pos caps cont = m_concat_lem parts pos caps cont
    match_at_lem (Ast.alt alts) pos caps cont = match_alt_lem alts pos caps cont
    match_at_lem (Ast.star body greedy) pos caps cont =
        m_star-Implements _ _ (match_at_lem body) greedy (suc (length chars)) pos caps cont
    match_at_lem (Ast.plus body greedy) pos caps cont =
        match_plus-Implements _ _ (match_at_lem body) greedy (suc (length chars)) pos caps cont
    match_at_lem (Ast.quest body greedy) pos caps cont =
        match_quest-Implements _ _ (match_at_lem body) greedy pos caps cont
    match_at_lem (Ast.group inner n) pos caps cont =
        match_group-Implements _ _ (match_at_lem inner) n pos caps cont
    match_at_lem (Ast.look inner ahead positive) pos caps cont =
        m_look-Implements _ _ (match_at_lem inner) ahead positive pos caps cont
    match_at_lem (Ast.backref n) pos caps cont = backref-Implements chars n pos caps cont

    m_concat_lem :
        (parts : Asts) → Implements (m_concat self chars parts) (all_outcomes self chars parts)
    m_concat_lem nil pos caps cont = sym (choose-one (follow cont) pos caps)
    m_concat_lem (cons part parts) pos caps cont =
        Implements-bind _ _ (match_at_lem part) pos caps _ cont _ λ p c. m_concat_lem parts p c cont

    match_alt_lem :
        (alts : Asts) → Implements (match_alt self chars alts) (any_outcomes self chars alts)
    match_alt_lem nil pos caps cont = nothing-left caps (follow cont)
    match_alt_lem (cons a alts) pos caps cont =
        view-retry-either _ _ (follow cont) _ _ (match_at_lem a pos caps cont)
          (match_alt_lem alts pos caps cont)

  -- A matcher with a continuation does what trying the pattern's outcomes in their order does, with
  -- the continuation after each: it ends at the same position with the same captures, or fails, or
  -- panics, as that does, whatever captures a failed trial has left.
  pub match_at-outcomes :
      (a : Ast) (pos : ℕ) (caps : Caps) (cont : Cont)
      → view (match_at self chars a pos caps cont)
        ≡ choose (λ p c. view (cont p c)) (outcomes self chars a pos caps)
  unfolding Implements
  match_at-outcomes a pos caps cont = match_at_lem a pos caps cont
