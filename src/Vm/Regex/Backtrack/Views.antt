-- ===== src/Vm/Regex/Backtrack/Views.antt =====
-- crates/js-vm/src/regex.rs: what a run of the matcher says, and how choices compose.
use justscript.Prelude.{
  ℕ, ◌+◌, ◌≡◌, refl, sym, ◌∙◌, Bool, true, false, Option, List, [], ◌∷◌, ◌++◌, if◌then◌else◌, Text,
}
use justscript.Vm.Regex.{Caps}
use justscript.Vm.Regex.Chars.{holds_at, char_at}
use justscript.Vm.Regex.Backtrack.{
  Run, found, failed, panicked, diverged, Cont, Matcher, accept, retry, restore, after, m_star,
  trial, m_look, ahead_positive, ahead_negative, match_backref, match_group, match_plus,
  match_quest, match_at, m_concat, match_alt, slice,
}
use justscript.Vm.Regex.Backtrack
use justscript.Vm.Regex.Backtrack.Outcomes
use justscript.Vm.Regex.Backtrack.Outcomes.{
  Outcome, reached, broke, ran_out, Outcomes, bind, Choice, chosen, no_match, broken, undecided,
  or_choice, resolve, choose, one, either, star, decide, outcomes, all_outcomes, any_outcomes,
}

-- What a run says, without the captures that a failure leaves behind.
unfoldable pub view : Run → Choice
view (found p c) = chosen p c
view (failed c) = no_match
view panicked = broken
view diverged = undecided

abbrev pub follow : Cont → ℕ → Caps → Choice
follow cont p c = view (cont p c)

unfoldable pub Implements : Matcher → Outcomes → Type 0
Implements m o =
    (pos : ℕ) (caps : Caps) (cont : Cont)
    → view (m pos caps cont) ≡ choose (follow cont) (o pos caps)

pub or_choice_assoc : (a b c : Choice) → or_choice (or_choice a b) c ≡ or_choice a (or_choice b c)
unfolding or_choice
or_choice_assoc (chosen _ _) b c = refl
or_choice_assoc no_match b c = refl
or_choice_assoc broken b c = refl
or_choice_assoc undecided b c = refl

pub or_choice-no_match : (a : Choice) → or_choice a no_match ≡ a
unfolding or_choice
or_choice-no_match (chosen _ _) = refl
or_choice-no_match no_match = refl
or_choice-no_match broken = refl
or_choice-no_match undecided = refl

module _ (k : ℕ → Caps → Choice) where
  pub choose-append :
      (xs ys : List Outcome) → choose k (xs ++ ys) ≡ or_choice (choose k xs) (choose k ys)
  unfolding choose or_choice
  choose-append [] ys = refl
  choose-append (reached p c ∷ xs) ys = rw (choose-append xs ys, or_choice_assoc (k p c)) refl
  choose-append (broke ∷ xs) ys = refl
  choose-append (ran_out ∷ xs) ys = refl

  pub choose-bind :
      (xs : List Outcome) (f : Outcomes)
      → choose k (bind xs f) ≡ choose (λ p c. choose k (f p c)) xs
  unfolding choose bind
  choose-bind [] f = refl
  choose-bind (reached p c ∷ xs) f = rw (choose-append (f p c), choose-bind xs f) refl
  choose-bind (broke ∷ xs) f = refl
  choose-bind (ran_out ∷ xs) f = refl

  pub choose-one : (p : ℕ) (c : Caps) → choose k (one p c) ≡ k p c
  unfolding choose
  choose-one p c = or_choice-no_match (k p c)

pub choose-cong :
    {k l : ℕ → Caps → Choice} (xs : List Outcome)
    → ((p : ℕ) (c : Caps) → k p c ≡ l p c)
    → choose k xs ≡ choose l xs
unfolding choose
choose-cong [] h = refl
choose-cong (reached p c ∷ xs) h = rw (h p c, choose-cong xs h) refl
choose-cong (broke ∷ xs) h = refl
choose-cong (ran_out ∷ xs) h = refl

pub view-retry : (a b : Run) → view (retry a b) ≡ or_choice (view a) (view b)
unfolding view retry or_choice
view-retry (found _ _) b = refl
view-retry (failed _) b = refl
view-retry panicked b = refl
view-retry diverged b = refl

pub view-restore : (slot : ℕ) (saved : Option ℕ) (r : Run) → view (restore slot saved r) ≡ view r
unfolding view restore
view-restore slot saved (found _ _) = refl
view-restore slot saved (failed _) = refl
view-restore slot saved panicked = refl
view-restore slot saved diverged = refl

-- A matcher run before a continuation whose view is known.
pub Implements-then :
    (m : Matcher) (o : Outcomes)
    → Implements m o
    → (pos : ℕ) (caps : Caps) (cont : Cont) (l : ℕ → Caps → Choice)
    → ((p : ℕ) (c : Caps) → view (cont p c) ≡ l p c)
    → view (m pos caps cont) ≡ choose l (o pos caps)
unfolding Implements
Implements-then m o h pos caps cont l e = h pos caps cont ∙ choose-cong _ e

-- … and before what a bind continues with.
pub Implements-bind :
    (m : Matcher) (o : Outcomes)
    → Implements m o
    → (pos : ℕ) (caps : Caps) (before after : Cont) (f : Outcomes)
    → ((p : ℕ) (c : Caps) → view (before p c) ≡ choose (follow after) (f p c))
    → view (m pos caps before) ≡ choose (follow after) (bind (o pos caps) f)
Implements-bind m o h pos caps before after f e =
    Implements-then m o h pos caps before _ e ∙ sym (choose-bind (follow after) (o pos caps) f)

pub guard-Implements : (holds : Bool) → Implements (Backtrack.guard holds) (Outcomes.guard holds)
unfolding Implements Backtrack.guard Outcomes.guard choose view
guard-Implements true pos caps cont = sym (choose-one (follow cont) pos caps)
guard-Implements false pos caps cont = refl

pub step-Implements :
    (chars : Text) (test : ℕ → Bool)
    → Implements (Backtrack.step chars test) (Outcomes.step chars test)
unfolding Implements Backtrack.step Outcomes.step Backtrack.guard
step-Implements chars test pos caps cont =
    guard-Implements (holds_at test (char_at chars pos)) (pos + 1) caps cont

-- An iteration that did not advance is a failure on both sides.
pub view-if :
    (b : Bool) (r : Run) (c : Caps) (k : ℕ → Caps → Choice) (os : List Outcome)
    → view r ≡ choose k os
    → view (if b then r else failed c) ≡ choose k (if b then os else [])
unfolding view choose
view-if true r c k os e = e
view-if false r c k os e = refl

pub nothing-left : (c : Caps) (k : ℕ → Caps → Choice) → view (failed c) ≡ choose k []
unfolding view choose
nothing-left c k = refl

pub broken-left : (k : ℕ → Caps → Choice) → view panicked ≡ choose k (broke ∷ [])
unfolding view choose
broken-left k = refl

pub if-view :
    (b : Bool) (r s : Run) (k : ℕ → Caps → Choice) (os qs : List Outcome)
    → view r ≡ choose k os
    → view s ≡ choose k qs
    → view (if b then r else s) ≡ choose k (if b then os else qs)
if-view true r s k os qs e f = e
if-view false r s k os qs e f = f

-- A trial and what either end of it leads to.
pub after-resolve :
    (r : Run) (k : ℕ → Caps → Choice) (hit : Cont) (miss : Run) (hits : ℕ → Caps → List Outcome)
    (misses : List Outcome)
    → ((p : ℕ) (c : Caps) → view (hit p c) ≡ choose k (hits p c))
    → view miss ≡ choose k misses
    → view (after r hit miss) ≡ choose k (resolve (view r) hits misses)
unfolding after resolve view choose
after-resolve (found p c) k hit miss hits misses e f = e p c
after-resolve (failed c) k hit miss hits misses e f = f
after-resolve panicked k hit miss hits misses e f = refl
after-resolve diverged k hit miss hits misses e f = refl

pub view-retry-either :
    (r s : Run) (k : ℕ → Caps → Choice) (more skip : List Outcome)
    → view r ≡ choose k more
    → view s ≡ choose k skip
    → view (retry r s) ≡ choose k (more ++ skip)
view-retry-either r s k more skip e f = rw (view-retry r s, choose-append k more skip, e, f) refl
