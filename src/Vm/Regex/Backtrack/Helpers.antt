-- ===== src/Vm/Regex/Backtrack/Helpers.antt =====
-- crates/js-vm/src/regex.rs: the helpers of `match_at` against the outcomes that they stand for.
use justscript.Prelude.{
  ℕ, zero, suc, ◌+◌, ◌-◌, ◌*◌, ◌≡◌, refl, sym, ap, ◌∙◌, Bool, true, false, not, Option, none, some,
  List, [], ◌∷◌, ltb, leb, if◌then◌else◌, ◌==◌, length, get_or, set, Text, nat_eq, list_eq,
}
use justscript.Vm.Regex.{Caps}
use justscript.Vm.Regex.Backtrack.{
  Run, found, failed, panicked, diverged, Cont, Matcher, accept, retry, restore, after, m_star,
  trial, m_look, ahead_positive, ahead_negative, match_backref, match_group, match_plus,
  match_quest, match_at, m_concat, match_alt, slice,
}
use justscript.Vm.Regex.Backtrack
use justscript.Vm.Regex.Backtrack.Outcomes
use justscript.Vm.Regex.Backtrack.Outcomes.{
  Outcome, reached, broke, ran_out, Outcomes, bind, Choice, chosen, no_match, broken, undecided,
  or_choice, resolve, choose, one, either, star, decide, outcomes, all_outcomes, any_outcomes,
}
use justscript.Vm.Regex.Backtrack.Views.{
  view, follow, Implements, choose-one, view-restore, Implements-bind, view-if, nothing-left,
  broken-left, if-view, after-resolve, view-retry-either,
}

module _ (m : Matcher) (o : Outcomes) (h : Implements m o) where
  -- The rounds of a star, each side counting its own.
  pub m_star-Implements :
      (greedy : Bool) (rounds : ℕ) → Implements (m_star m greedy rounds) (star o greedy rounds)
  unfolding Implements m_star star either choose view
  m_star-Implements greedy zero pos caps cont = refl
  m_star-Implements true (suc rounds) pos caps cont =
      view-retry-either _ _ (follow cont) _ (one pos caps)
        (Implements-bind m o h pos caps _ cont _
          λ p c. view-if (ltb pos p) _ c (follow cont) _ (m_star-Implements true rounds p c cont))
        (sym (choose-one (follow cont) pos caps))
  m_star-Implements false (suc rounds) pos caps cont =
      view-retry-either _ _ (follow cont) (one pos caps) _ (sym (choose-one (follow cont) pos caps))
        (Implements-bind m o h pos caps _ cont _
          λ p c. view-if (ltb pos p) _ c (follow cont) _ (m_star-Implements false rounds p c cont))

  pub match_plus-Implements :
      (greedy : Bool) (rounds pos : ℕ) (caps : Caps) (cont : Cont)
      → view (match_plus m greedy rounds pos caps cont)
        ≡ choose
            (follow cont)
            (bind (o pos caps) λ p c. if ltb pos p then star o greedy rounds p c else one p c)
  unfolding Implements match_plus
  match_plus-Implements greedy rounds pos caps cont = Implements-bind m o h pos caps _ cont _ λ p c.
      if-view (ltb pos p) _ _ (follow cont) _ (one p c) (m_star-Implements greedy rounds p c cont)
        (sym (choose-one (follow cont) p c))

  pub match_quest-Implements :
      (greedy : Bool) (pos : ℕ) (caps : Caps) (cont : Cont)
      → view (match_quest m greedy pos caps cont)
        ≡ choose (follow cont) (either greedy (o pos caps) (one pos caps))
  unfolding Implements match_quest either
  match_quest-Implements true pos caps cont =
      view-retry-either _ _ (follow cont) (o pos caps) (one pos caps) (h pos caps cont)
        (sym (choose-one (follow cont) pos caps))
  match_quest-Implements false pos caps cont =
      view-retry-either _ _ (follow cont) (one pos caps) (o pos caps)
        (sym (choose-one (follow cont) pos caps)) (h pos caps cont)

  pub match_group-Implements :
      (n pos : ℕ) (caps : Caps) (cont : Cont)
      → view (match_group m n pos caps cont)
        ≡ choose
            (follow cont)
            (bind (o pos (set caps (2 * n) (some pos))) λ p c. one p (set c (2 * n + 1) (some p)))
  unfolding match_group
  match_group-Implements n pos caps cont =
      view-restore (2 * n) _ _
      ∙ Implements-bind m o h pos _ _ cont _
          λ p c. view-restore (2 * n + 1) _ _ ∙ sym (choose-one (follow cont) p _)

  pub after-decide :
      (sp : ℕ) (caps : Caps) (k : ℕ → Caps → Choice) (hit : Cont) (miss : Run)
      (hits : ℕ → Caps → List Outcome) (misses : List Outcome)
      → ((p : ℕ) (c : Caps) → view (hit p c) ≡ choose k (hits p c))
      → view miss ≡ choose k misses
      → view (after (m sp caps accept) hit miss) ≡ choose k (decide (o sp caps) hits misses)
  unfolding Implements decide view
  after-decide sp caps k hit miss hits misses e f =
      after-resolve (m sp caps accept) k hit miss hits misses e f
      ∙ ap (λ v. choose k (resolve v hits misses)) (h sp caps accept)

  pub behind_positive-Implements :
      (sp pos : ℕ) (caps : Caps) (cont : Cont)
      → view (Backtrack.behind_positive m sp pos caps cont)
        ≡ choose (follow cont) (Outcomes.behind_positive o sp pos caps)
  unfolding Backtrack.behind_positive Outcomes.behind_positive trial
  behind_positive-Implements zero pos caps cont =
      after-decide 0 caps (follow cont) _ _ _ []
        (λ p c.
          if-view (p == pos) _ (failed caps) (follow cont) (one pos c) []
            (sym (choose-one (follow cont) pos c)) (nothing-left caps (follow cont)))
        (nothing-left caps (follow cont))
  behind_positive-Implements (suc sp) pos caps cont =
      let earlier = behind_positive-Implements sp pos caps cont in
      after-decide (suc sp) caps (follow cont) _ _ _ _
        (λ p c.
          if-view (p == pos) _ _ (follow cont) (one pos c) _ (sym (choose-one (follow cont) pos c))
            earlier)
        earlier

  pub behind_negative-Implements :
      (sp left pos : ℕ) (caps : Caps) (cont : Cont)
      → view (Backtrack.behind_negative m sp left pos caps cont)
        ≡ choose (follow cont) (Outcomes.behind_negative o sp left pos caps)
  unfolding Backtrack.behind_negative Outcomes.behind_negative trial
  behind_negative-Implements sp zero pos caps cont =
      let here = sym (choose-one (follow cont) pos caps) in
      after-decide sp caps (follow cont) _ _ _ (one pos caps)
        (λ p c.
          if-view (p == pos) (failed c) _ (follow cont) [] (one pos caps)
            (nothing-left c (follow cont)) here)
        here
  behind_negative-Implements sp (suc left) pos caps cont =
      let later = behind_negative-Implements (suc sp) left pos caps cont in
      after-decide sp caps (follow cont) _ _ _ _
        (λ p c.
          if-view (p == pos) (failed c) _ (follow cont) [] _ (nothing-left c (follow cont)) later)
        later

  pub m_look-Implements :
      (ahead positive : Bool) (pos : ℕ) (caps : Caps) (cont : Cont)
      → view (m_look m ahead positive pos caps cont)
        ≡ choose (follow cont) (Outcomes.look o ahead positive pos caps)
  unfolding m_look Outcomes.look ahead_positive ahead_negative
  m_look-Implements true true pos caps cont =
      after-decide pos caps (follow cont) _ _ _ [] (λ p c. sym (choose-one (follow cont) pos c))
        (nothing-left caps (follow cont))
  m_look-Implements true false pos caps cont =
      after-decide pos caps (follow cont) _ _ _ (one pos caps)
        (λ p c. nothing-left caps (follow cont)) (sym (choose-one (follow cont) pos caps))
  m_look-Implements false true pos caps cont = behind_positive-Implements pos pos caps cont
  m_look-Implements false false pos caps cont = behind_negative-Implements 0 pos pos caps cont

-- A backreference: each test on the one side is a test on the other.
pub same_text-Implements :
    (chars : Text) (s e : ℕ)
    → Implements (Backtrack.same_text chars s e) (Outcomes.same_text chars s e)
unfolding Implements Backtrack.same_text Outcomes.same_text
same_text-Implements chars s e pos caps cont =
    let k = follow cont in
    let next = pos + (e - s) in
    if-view (ltb e s) panicked _ k (broke ∷ []) _ (broken-left k) (
      if-view (not (leb next (length chars))) (failed caps) _ k [] _ (nothing-left caps k) (
        if-view (ltb (length chars) e) panicked _ k (broke ∷ []) _ (broken-left k) (
          if-view (slice chars pos next == slice chars s e) _ (failed caps) k (one next caps) []
            (sym (choose-one k next caps)) (nothing-left caps k))))

pub same_group-Implements :
    (chars : Text) (s e : Option ℕ)
    → Implements (Backtrack.same_group chars s e) (Outcomes.same_group chars s e)
unfolding Implements Backtrack.same_group Outcomes.same_group
same_group-Implements chars (some s) (some e) pos caps cont =
    same_text-Implements chars s e pos caps cont
same_group-Implements chars (some s) none pos caps cont = sym (choose-one (follow cont) pos caps)
same_group-Implements chars none e pos caps cont = sym (choose-one (follow cont) pos caps)

pub backref-Implements :
    (chars : Text) (n : ℕ) → Implements (match_backref chars n) (Outcomes.backref chars n)
unfolding Implements match_backref Outcomes.backref
backref-Implements chars n pos caps cont =
    if-view (leb (length caps) (2 * n + 1)) (failed caps) _ (follow cont) [] _
      (nothing-left caps (follow cont))
      (same_group-Implements chars (get_or caps (2 * n) none) (get_or caps (2 * n + 1) none) pos
        caps cont)
