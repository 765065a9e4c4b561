-- ===== src/Vm/Regex/Backtrack.antt =====
-- crates/js-vm/src/regex.rs: the matcher by continuations, `match_at` and its helpers.
use justscript.Prelude.{
  ℕ, zero, suc, ◌+◌, ◌-◌, ◌*◌, Bool, true, false, not, Option, none, some, ltb, leb, if◌then◌else◌,
  ◌==◌, length, get_or, set, take, drop, Text, nat_eq, list_eq,
}
pub mod Outcomes
pub mod Views
pub mod Helpers
pub mod Refines
pub mod Within
pub mod Reach
pub mod Total
pub mod Repeats
use justscript.Vm.Regex
use justscript.Vm.Regex.{Ast, Asts, nil, cons, RegexProgram, Caps}
use justscript.Vm.Regex.Chars.{
  char_eq, class_matches, holds_at, char_at, is_boundary, at_start, at_end, dot_matches,
}

-- What a call leaves: `Some` of the last position or `None`, each with the capture vector then;
-- a panic; or the end of the rounds that a star was given.
pub data Run : Type 0 where
  found : ℕ → Caps → Run
  failed : Caps → Run
  panicked : Run
  diverged : Run

abbrev pub Cont : Type 0
Cont = ℕ → Caps → Run

-- a matcher of one pattern, at a position and with a capture vector
abbrev pub Matcher : Type 0
Matcher = ℕ → Caps → Cont → Run

abbrev pub accept : Cont
accept p c = found p c

-- `if let Some(p) = first { return Some(p) }; second`
unfoldable pub retry : Run → Run → Run
retry (failed _) second = second
retry first second = first

-- A capture slot put back after a failure.
unfoldable pub restore : ℕ → Option ℕ → Run → Run
restore slot saved (failed c) = failed (set c slot saved)
restore slot saved r = r

-- One character is read and tested.
unfoldable pub step : Text → (ℕ → Bool) → Matcher
step chars test pos caps cont =
    if holds_at test (char_at chars pos) then cont (pos + 1) caps else failed caps

-- A condition on the position alone.
unfoldable pub guard : Bool → Matcher
guard holds pos caps cont = if holds then cont pos caps else failed caps

-- Each further iteration has to advance, so the rounds are bounded by the text that is left.
unfoldable pub m_star : Matcher → Bool → ℕ → Matcher
unfolding retry
m_star body greedy zero pos caps cont = diverged
m_star body true (suc rounds) pos caps cont =
    retry (body pos caps λ p c. if ltb pos p then m_star body true rounds p c cont else failed c)
      (cont pos caps)
m_star body false (suc rounds) pos caps cont =
    retry (cont pos caps)
      (body pos caps λ p c. if ltb pos p then m_star body false rounds p c cont else failed c)

-- What follows a trial of the inner pattern that was started with `accept`.
unfoldable pub after : Run → Cont → Run → Run
after (found p c) hit miss = hit p c
after (failed _) hit miss = miss
after panicked hit miss = panicked
after diverged hit miss = diverged

unfoldable pub ahead_positive : Matcher → Matcher
unfolding after
ahead_positive inner pos caps cont = after (inner pos caps accept) (λ p c. cont pos c) (failed caps)

unfoldable pub ahead_negative : Matcher → Matcher
unfolding after
ahead_negative inner pos caps cont =
    after (inner pos caps accept) (λ p c. failed caps) (cont pos caps)

-- Lookbehind: a trial from `sp`, which hits when it ends at `pos`.
unfoldable pub trial : Matcher → ℕ → ℕ → Caps → (Caps → Run) → Run → Run
unfolding after
trial inner pos sp caps hit miss =
    after (inner sp caps accept) (λ ep c. if ep == pos then hit c else miss) miss

-- `for sp in (0..=pos).rev()`
unfoldable pub behind_positive : Matcher → ℕ → Matcher
unfolding trial
behind_positive inner zero pos caps cont = trial inner pos 0 caps (cont pos) (failed caps)
behind_positive inner (suc sp) pos caps cont =
    trial inner pos (suc sp) caps (cont pos) (behind_positive inner sp pos caps cont)

-- `for sp in 0..=pos`, with `left` starts to try after `sp`
unfoldable pub behind_negative : Matcher → ℕ → ℕ → Matcher
unfolding trial
behind_negative inner sp zero pos caps cont = trial inner pos sp caps failed (cont pos caps)
behind_negative inner sp (suc left) pos caps cont =
    trial inner pos sp caps failed (behind_negative inner (suc sp) left pos caps cont)

unfoldable pub m_look : Matcher → Bool → Bool → Matcher
unfolding ahead_positive ahead_negative behind_positive behind_negative
m_look inner true true pos = ahead_positive inner pos
m_look inner true false pos = ahead_negative inner pos
m_look inner false true pos = behind_positive inner pos pos
m_look inner false false pos = behind_negative inner 0 pos pos

-- `chars[from..to]`
abbrev pub slice : Text → ℕ → ℕ → Text
slice chars from to = take (to - from) (drop from chars)

-- The text of a group once more: `e - s` and the slice are where the code can panic. Where `e` is
-- less than `s` the subtraction panics in a debug build; in a release build it wraps, and the slice
-- that ends before it begins panics, unless `pos + e` is less than `s`, where the match fails.
unfoldable pub same_text : Text → ℕ → ℕ → Matcher
same_text chars s e pos caps cont =
    if ltb e s
    then panicked
    else if not (leb (pos + (e - s)) (length chars))
    then failed caps
    else if ltb (length chars) e
    then panicked
    else if slice chars pos (pos + (e - s)) == slice chars s e
    then cont (pos + (e - s)) caps
    else failed caps

unfoldable pub same_group : Text → Option ℕ → Option ℕ → Matcher
unfolding same_text
same_group chars (some s) (some e) pos caps cont = same_text chars s e pos caps cont
same_group chars _ _ pos caps cont = cont pos caps

unfoldable pub match_backref : Text → ℕ → Matcher
unfolding same_group
match_backref chars n pos caps cont =
    if leb (length caps) (2 * n + 1)
    then failed caps
    else same_group chars (get_or caps (2 * n) none) (get_or caps (2 * n + 1) none) pos caps cont

unfoldable pub match_group : Matcher → ℕ → Matcher
unfolding restore
match_group inner n pos caps cont = restore (2 * n) (get_or caps (2 * n) none) (
    inner pos (set caps (2 * n) (some pos))
      λ p c. restore (2 * n + 1) (get_or c (2 * n + 1) none) (cont p (set c (2 * n + 1) (some p))))

-- One required copy, then a star unless the copy was empty.
unfoldable pub match_plus : Matcher → Bool → ℕ → Matcher
unfolding m_star
match_plus body greedy rounds pos caps cont =
    body pos caps λ p c. if ltb pos p then m_star body greedy rounds p c cont else cont p c

unfoldable pub match_quest : Matcher → Bool → Matcher
unfolding retry
match_quest body true pos caps cont = retry (body pos caps cont) (cont pos caps)
match_quest body false pos caps cont = retry (cont pos caps) (body pos caps cont)

module _ (self : RegexProgram) (chars : Text) where
  -- Rounds enough for a star at any position.
  abbrev pub star_rounds : ℕ
  star_rounds = suc (length chars)

  unfoldable mutual
    unfolding step guard m_star match_plus match_quest match_group m_look match_backref retry
        char_eq class_matches is_boundary at_start at_end dot_matches

    pub match_at : Ast → Matcher
    match_at Ast.empty pos caps cont = cont pos caps
    match_at (Ast.char c) pos caps cont =
        step chars (λ x. char_eq x c self.ignore_case) pos caps cont
    match_at Ast.dot pos caps cont = step chars (dot_matches self) pos caps cont
    match_at (Ast.class r neg) pos caps cont =
        step chars (λ x. class_matches x r neg self.ignore_case) pos caps cont
    match_at Ast.start pos caps cont = guard (at_start self chars pos) pos caps cont
    match_at Ast.end pos caps cont = guard (at_end self chars pos) pos caps cont
    match_at Ast.word_boundary pos caps cont = guard (is_boundary chars pos) pos caps cont
    match_at Ast.not_word_boundary pos caps cont = guard (not (is_boundary chars pos)) pos caps cont
    match_at (Ast.concat parts) pos caps cont = m_concat parts pos caps cont
    match_at (Ast.alt alts) pos caps cont = match_alt alts pos caps cont
    match_at (Ast.star body greedy) pos caps cont =
        m_star (match_at body) greedy star_rounds pos caps cont
    match_at (Ast.plus body greedy) pos caps cont =
        match_plus (match_at body) greedy star_rounds pos caps cont
    match_at (Ast.quest body greedy) pos caps cont =
        match_quest (match_at body) greedy pos caps cont
    match_at (Ast.group inner n) pos caps cont = match_group (match_at inner) n pos caps cont
    match_at (Ast.look inner ahead positive) pos caps cont =
        m_look (match_at inner) ahead positive pos caps cont
    match_at (Ast.backref n) pos caps cont = match_backref chars n pos caps cont

    pub m_concat : Asts → Matcher
    m_concat nil pos caps cont = cont pos caps
    m_concat (cons part parts) pos caps cont = match_at part pos caps λ p c. m_concat parts p c cont

    -- the loop over the alternatives, which ends in `None` with the captures put back
    pub match_alt : Asts → Matcher
    match_alt nil pos caps cont = failed caps
    match_alt (cons a alts) pos caps cont =
        retry (match_at a pos caps cont) (match_alt alts pos caps cont)
