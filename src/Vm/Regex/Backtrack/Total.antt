-- ===== src/Vm/Regex/Backtrack/Total.antt =====
-- crates/js-vm/src/regex.rs: the matcher ends whenever what follows it does.
use justscript.Prelude.{ℕ, ◌≤◌, ◌≡◌, refl, sym, ap, ◌∙◌, ◌≢◌, List, [], ◌∷◌, length, All, Text}
use justscript.Vm.Regex.{Ast, RegexProgram, Caps}
use justscript.Vm.Regex.Backtrack.{Run, found, failed, panicked, diverged, Cont, match_at}
use justscript.Vm.Regex.Backtrack.Outcomes.{
  Outcome, reached, broke, ran_out, Choice, chosen, no_match, broken, undecided, or_choice, choose,
  outcomes,
}
use justscript.Vm.Regex.Backtrack.Views.{view}
use justscript.Vm.Regex.Backtrack.Refines.{match_at-outcomes}
use justscript.Vm.Regex.Backtrack.Within.{Within}
use justscript.Vm.Regex.Backtrack.Reach.{outcomes-Within}

or_choice-decided : (a b : Choice) → a ≢ undecided → b ≢ undecided → or_choice a b ≢ undecided
unfolding or_choice
or_choice-decided (chosen _ _) b h k = h
or_choice-decided no_match b h k = k
or_choice-decided broken b h k = h
or_choice-decided undecided b h k = h

choose-decided :
    (n from : ℕ) (k : ℕ → Caps → Choice) (os : List Outcome)
    → All (Within n from) os
    → ((p : ℕ) (c : Caps) → from ≤ p → p ≤ n → k p c ≢ undecided)
    → choose k os ≢ undecided
unfolding choose
choose-decided n from k [] h e = λ bad. absurd (cc)
choose-decided n from k (reached p c ∷ os) h e =
    or_choice-decided (k p c) (choose k os) (e p c h.0.0 h.0.1) (choose-decided n from k os h.1 e)
choose-decided n from k (broke ∷ os) h e = λ bad. absurd (cc)
choose-decided n from k (ran_out ∷ os) h e = absurd h.0

view-undecided : (r : Run) → view r ≡ undecided → r ≡ diverged
unfolding view
view-undecided (found _ _) e = absurd (cc)
view-undecided (failed _) e = absurd (cc)
view-undecided panicked e = absurd (cc)
view-undecided diverged e = refl

view-diverged : (r : Run) → r ≢ diverged → view r ≢ undecided
view-diverged r h e = h (view-undecided r e)

-- From a position of the text, the matcher ends if its continuation ends at every position from
-- there to the end of the text.
pub match_at-ends :
    (self : RegexProgram) (chars : Text) (a : Ast) (pos : ℕ) (caps : Caps) (cont : Cont)
    → pos ≤ length chars
    → ((p : ℕ) (c : Caps) → pos ≤ p → p ≤ length chars → cont p c ≢ diverged)
    → match_at self chars a pos caps cont ≢ diverged
unfolding view
match_at-ends self chars a pos caps cont le h e =
    choose-decided (length chars) pos _ (outcomes self chars a pos caps)
      (outcomes-Within chars self a pos caps le)
      (λ p c ge le'. view-diverged (cont p c) (h p c ge le'))
      (sym (match_at-outcomes self chars a pos caps cont) ∙ ap view e)
