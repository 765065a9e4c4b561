-- ===== src/Vm/Regex/Backtrack/Outcomes.antt =====
-- What a pattern can do at a position, in the order of preference and with no continuation:
-- the description that the matcher of crates/js-vm/src/regex.rs is held against.
use justscript.Prelude.{
  ℕ, zero, suc, ◌+◌, ◌-◌, ◌*◌, Bool, true, false, not, Option, none, some, List, [], ◌∷◌, ◌++◌, ltb,
  leb, if◌then◌else◌, ◌==◌, length, get_or, set, Text, nat_eq, list_eq,
}
use justscript.Vm.Regex.{Ast, Asts, nil, cons, RegexProgram, Caps}
use justscript.Vm.Regex.Chars.{
  char_eq, class_matches, holds_at, char_at, is_boundary, at_start, at_end, dot_matches,
}
use justscript.Vm.Regex.Backtrack.{slice}

-- A position reached with its captures, a panic, or a star out of rounds.
pub data Outcome : Type 0 where
  reached : ℕ → Caps → Outcome
  broke : Outcome
  ran_out : Outcome

abbrev pub Outcomes : Type 0
Outcomes = ℕ → Caps → List Outcome

unfoldable pub bind : List Outcome → Outcomes → List Outcome
bind [] f = []
bind (reached p c ∷ os) f = f p c ++ bind os f
bind (o ∷ os) f = o ∷ bind os f

-- The first thing that happens when the outcomes are tried in turn with `k` as what follows.
pub data Choice : Type 0 where
  chosen : ℕ → Caps → Choice
  no_match : Choice
  broken : Choice
  undecided : Choice

unfoldable pub or_choice : Choice → Choice → Choice
or_choice no_match second = second
or_choice first second = first

unfoldable pub choose : (ℕ → Caps → Choice) → List Outcome → Choice
unfolding or_choice
choose k [] = no_match
choose k (reached p c ∷ os) = or_choice (k p c) (choose k os)
choose k (broke ∷ os) = broken
choose k (ran_out ∷ os) = undecided

abbrev pub one : Outcomes
one p c = reached p c ∷ []

unfoldable pub guard : Bool → Outcomes
guard holds pos caps = if holds then one pos caps else []

unfoldable pub step : Text → (ℕ → Bool) → Outcomes
unfolding guard
step chars test pos caps = guard (holds_at test (char_at chars pos)) (pos + 1) caps

-- The two orders: first another copy, or first none.
unfoldable pub either : Bool → List Outcome → List Outcome → List Outcome
either true more skip = more ++ skip
either false more skip = skip ++ more

unfoldable pub star : Outcomes → Bool → ℕ → Outcomes
unfolding either bind
star body greedy zero pos caps = ran_out ∷ []
star body greedy (suc rounds) pos caps =
    either greedy
      (bind (body pos caps) λ p c. if ltb pos p then star body greedy rounds p c else [])
      (one pos caps)

unfoldable pub resolve : Choice → (ℕ → Caps → List Outcome) → List Outcome → List Outcome
resolve (chosen p c) hit miss = hit p c
resolve no_match hit miss = miss
resolve broken hit miss = broke ∷ []
resolve undecided hit miss = ran_out ∷ []

-- A trial of which only the first outcome counts.
unfoldable pub decide : List Outcome → (ℕ → Caps → List Outcome) → List Outcome → List Outcome
unfolding choose resolve
decide os hit miss = resolve (choose (λ p c. chosen p c) os) hit miss

unfoldable pub behind_positive : Outcomes → ℕ → Outcomes
unfolding decide
behind_positive inner zero pos caps =
    decide (inner 0 caps) (λ ep c. if ep == pos then one pos c else []) []
behind_positive inner (suc sp) pos caps =
    let earlier = behind_positive inner sp pos caps in
    decide (inner (suc sp) caps) (λ ep c. if ep == pos then one pos c else earlier) earlier

unfoldable pub behind_negative : Outcomes → ℕ → ℕ → Outcomes
unfolding decide
behind_negative inner sp zero pos caps =
    decide (inner sp caps) (λ ep c. if ep == pos then [] else one pos caps) (one pos caps)
behind_negative inner sp (suc left) pos caps =
    let later = behind_negative inner (suc sp) left pos caps in
    decide (inner sp caps) (λ ep c. if ep == pos then [] else later) later

unfoldable pub look : Outcomes → Bool → Bool → Outcomes
unfolding decide behind_positive behind_negative
look inner true true pos caps = decide (inner pos caps) (λ p c. one pos c) []
look inner true false pos caps = decide (inner pos caps) (λ p c. []) (one pos caps)
look inner false true pos caps = behind_positive inner pos pos caps
look inner false false pos caps = behind_negative inner 0 pos pos caps

unfoldable pub same_text : Text → ℕ → ℕ → Outcomes
same_text chars s e pos caps =
    if ltb e s
    then broke ∷ []
    else if not (leb (pos + (e - s)) (length chars))
    then []
    else if ltb (length chars) e
    then broke ∷ []
    else if slice chars pos (pos + (e - s)) == slice chars s e
    then one (pos + (e - s)) caps
    else []

unfoldable pub same_group : Text → Option ℕ → Option ℕ → Outcomes
unfolding same_text
same_group chars (some s) (some e) pos caps = same_text chars s e pos caps
same_group chars _ _ pos caps = one pos caps

unfoldable pub backref : Text → ℕ → Outcomes
unfolding same_group
backref chars n pos caps =
    if leb (length caps) (2 * n + 1)
    then []
    else same_group chars (get_or caps (2 * n) none) (get_or caps (2 * n + 1) none) pos caps

module _ (self : RegexProgram) (chars : Text) where
  unfoldable mutual
    unfolding bind guard step star either look backref char_eq class_matches is_boundary at_start
        at_end dot_matches

    pub outcomes : Ast → Outcomes
    outcomes Ast.empty pos caps = one pos caps
    outcomes (Ast.char c) pos caps = step chars (λ x. char_eq x c self.ignore_case) pos caps
    outcomes Ast.dot pos caps = step chars (dot_matches self) pos caps
    outcomes (Ast.class r neg) pos caps =
        step chars (λ x. class_matches x r neg self.ignore_case) pos caps
    outcomes Ast.start pos caps = guard (at_start self chars pos) pos caps
    outcomes Ast.end pos caps = guard (at_end self chars pos) pos caps
    outcomes Ast.word_boundary pos caps = guard (is_boundary chars pos) pos caps
    outcomes Ast.not_word_boundary pos caps = guard (not (is_boundary chars pos)) pos caps
    outcomes (Ast.concat parts) pos caps = all_outcomes parts pos caps
    outcomes (Ast.alt alts) pos caps = any_outcomes alts pos caps
    outcomes (Ast.star body greedy) pos caps =
        star (outcomes body) greedy (suc (length chars)) pos caps
    outcomes (Ast.plus body greedy) pos caps =
        bind (outcomes body pos caps)
          λ p c. if ltb pos p then star (outcomes body) greedy (suc (length chars)) p c else one p c
    outcomes (Ast.quest body greedy) pos caps =
        either greedy (outcomes body pos caps) (one pos caps)
    outcomes (Ast.group inner n) pos caps =
        bind (outcomes inner pos (set caps (2 * n) (some pos)))
          λ p c. one p (set c (2 * n + 1) (some p))
    outcomes (Ast.look inner ahead positive) pos caps =
        look (outcomes inner) ahead positive pos caps
    outcomes (Ast.backref n) pos caps = backref chars n pos caps

    pub all_outcomes : Asts → Outcomes
    all_outcomes nil pos caps = one pos caps
    all_outcomes (cons part parts) pos caps =
        bind (outcomes part pos caps) λ p c. all_outcomes parts p c

    pub any_outcomes : Asts → Outcomes
    any_outcomes nil pos caps = []
    any_outcomes (cons a alts) pos caps = outcomes a pos caps ++ any_outcomes alts pos caps
