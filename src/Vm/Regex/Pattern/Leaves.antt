-- ===== src/Vm/Regex/Pattern/Leaves.antt =====
-- crates/js-vm/src/regex.rs: names, escapes and classes keep the parser well formed.
use mathlib.Core.Path.{subst}
use justscript.Prelude.{
  ℕ, zero, suc, ◌+◌, ◌<◌, ◌≡◌, refl, sym, ap, inl, inr, not, ◌&&◌, ◌||◌, Option, none, some, [],
  ◌∷◌, arith, if◌then◌else◌, Option-cases, ◌==◌, length, drop, Text, nat_eq, list_eq,
}
use justscript.Vm.Regex.Pattern.{
  Parser, Parsed, done, peek, next_is, bump, skip, skip_while, skip_digits, is_ascii_digit,
  text_between,
}
use justscript.Vm.Regex.Pattern.Classes.{
  class_escape_char, end_after_escape, is_range, skip_if, escape_entry, plain_entry, class_entries,
  parse_class,
}
use justscript.Vm.Regex.Pattern.Escapes.{
  simple_escape, read_backref_name, lookup_name, simple_or, numeric_backref, escape_of,
  parse_escape,
}
use justscript.Vm.Regex.Pattern.Groups.{scan_name, read_group_name, expect_close}
use justscript.Vm.Regex.Pattern.Reads.{
  Ends, IsParser, Reads, Reads-refl, Reads-trans, rounds_left, bind-Ends, if-Ends, on_char-Ends,
  Ends-weaken, skip-Reads, skip_while-Reads, skip-some,
}
use justscript.Vm.Regex.Pattern.Rules.{Reading, skip_digits-Reads, if-both}
use justscript.Vm.Regex.Compile.Targets.{GroupsAtMost}
use justscript.Vm.Regex.{Ast}

-- A value and a parser that is no earlier.
abbrev pub Later {ℓ} : {A : Type ℓ} → Parser → A × Parser → Type 0
Later p (a, p') = Reads p p'

pub bump-skip : (p : Parser) → (bump p).1 ≡ skip p
unfolding skip
bump-skip p = refl

pub bump-peek : (p : Parser) → (bump p).0 ≡ peek p
unfolding bump
bump-peek p = elim (Option-cases (peek p)) [
  | inl e ↦ rw (e, bump) refl
  | inr (c, e) ↦ rw (e, bump) refl
]

pub bump-Reads : (p : Parser) → IsParser p → Reads p (bump p).1
bump-Reads p h = subst (Reads p) (sym (bump-skip p)) (skip-Reads p h)

pub expect_close-Reads : (p : Parser) → IsParser p → Ends (Reads p) (expect_close p)
unfolding expect_close
expect_close-Reads p h = if-Ends (Reads p) (next_is b')' p) _ _ (λ _. skip-Reads p h) (λ _. tt)

scan_name-Reads : (cs : Text) (p : Parser) → IsParser p → Ends (Reads p) (scan_name cs p)
unfolding scan_name
scan_name-Reads [] p h = Reads-refl p h
scan_name-Reads (c ∷ cs) p h =
    let one = skip-Reads p h in
    if-Ends (Reads p) (c == b'>') _ _ (λ _. Reads-refl p h)
      λ _.
        if-Ends (Reads p) (c == b')' || c == b'(') _ _ (λ _. tt)
          λ _.
            Ends-weaken (Reads (skip p)) (Reads p) (scan_name cs (skip p))
              (λ q. Reads-trans p (skip p) q one) (scan_name-Reads cs (skip p) one.valid)

pub read_group_name-Reads : (p : Parser) → IsParser p → Ends (Later p) (read_group_name p)
unfolding read_group_name
read_group_name-Reads p h =
    bind-Ends (Reads p) (Later p) (scan_name (drop p.pos p.chars) p) _
      (scan_name-Reads (drop p.pos p.chars) p h)
      λ ended k.
        if-Ends (Later p) (not (next_is b'>' ended)) _ _ (λ _. tt)
          λ _.
            if-Ends (Later p) (text_between p ended == []) _ _ (λ _. tt)
              λ _. Reads-trans p ended _ k (skip-Reads ended k.valid)

class_escape_char-Reads : (p : Parser) → IsParser p → Ends (Later p) (class_escape_char p)
unfolding class_escape_char
class_escape_char-Reads p h =
    on_char-Ends (Later p) (bump p).0 _ _ (λ _. tt) (λ c _. bump-Reads p h)

end_after_escape-Reads : (p : Parser) → IsParser p → Ends (Later p) (end_after_escape p)
unfolding end_after_escape
end_after_escape-Reads p h =
    let one = skip-Reads p h in
    if-Ends (Later p) (next_is b'\\' p) _ _
      (λ _.
        Ends-weaken (Later (skip p)) (Later p) (class_escape_char (skip p))
          (λ (c, q). Reads-trans p (skip p) q one) (class_escape_char-Reads (skip p) one.valid))
      (λ _. bump-Reads p h)

escape_entry-Reads : (p : Parser) → IsParser p → Ends (Later (skip p)) (escape_entry p)
unfolding escape_entry
escape_entry-Reads p h =
    let one = skip-Reads p h in
    bind-Ends (Later (skip p)) (Later (skip p)) (class_escape_char (skip p)) _
      (class_escape_char-Reads (skip p) one.valid)
      λ (c, q) k.
        if-Ends (Later (skip p)) (is_range q) _ _
          (λ _.
            let two = skip-Reads q k.valid in
            bind-Ends (Later (skip q)) (Later (skip p)) (end_after_escape (skip q)) _
              (end_after_escape-Reads (skip q) two.valid)
              λ (d, r) l. Reads-trans (skip p) q r k (Reads-trans q (skip q) r two l))
          (λ _. k)

plain_entry-Reads : (c : ℕ) (p : Parser) → IsParser p → Later (skip p) (plain_entry c p)
unfolding plain_entry
plain_entry-Reads c p h =
    let one = skip-Reads p h in
    let two = skip-Reads (skip p) one.valid in
    if-both (Later (skip p)) (is_range (skip p)) _ _
      (Reads-trans (skip p) (skip (skip p)) _ two (bump-Reads (skip (skip p)) two.valid))
      (Reads-refl (skip p) one.valid)

-- Each round reads at least one character.
class_entries-Reads :
    (rounds : ℕ) (p : Parser)
    → IsParser p
    → length p.chars < p.pos + rounds
    → Ends (Later p) (class_entries rounds p)
unfolding class_entries
class_entries-Reads zero p h fuel = absurd (omega (arith, h.inside))
class_entries-Reads (suc rounds) p h fuel =
    let one = skip-Reads p h in
    on_char-Ends (Later p) (peek p) _ _ (λ _. tt)
      λ c e.
        if-Ends (Later p) (c == b']') _ _ (λ _. one)
          λ _.
            bind-Ends (Later (skip p)) (Later p)
              (if c == b'\\' then escape_entry p else done (plain_entry c p)) _
              (if-Ends (Later (skip p)) (c == b'\\') _ _ (λ _. escape_entry-Reads p h)
                (λ _. plain_entry-Reads c p h))
              λ (entry, q) k.
                let reads = Reads-trans p (skip p) q one k in
                let fuel' : length q.chars < q.pos + rounds =
                  rounds_left p q rounds reads (omega (arith, k.forward, skip-some p c e)) fuel in
                bind-Ends (Later q) (Later p) (class_entries rounds q) _
                  (class_entries-Reads rounds q k.valid fuel')
                  λ (entries, r) l. Reads-trans p q r reads l

skip_if-Reads : (c : ℕ) (p : Parser) → IsParser p → Reads p (skip_if c p)
skip_if-Reads c p h = if-both (Reads p) (next_is c p) _ _ (skip-Reads p h) (Reads-refl p h)

pub parse_class-Reading : (p : Parser) → IsParser p → Ends (Reading p) (parse_class p)
unfolding parse_class GroupsAtMost
parse_class-Reading p h =
    let opened = skip_if b'^' p in
    let one = skip_if-Reads b'^' p h in
    let inside = skip_if b']' opened in
    let two = Reads-trans p opened inside one (skip_if-Reads b']' opened one.valid) in
    bind-Ends (Later inside) (Reading p) (class_entries (suc (length p.chars)) inside) _
      (class_entries-Reads (suc (length p.chars)) inside two.valid
        (omega (arith, ap length two.same)))
      λ (entries, q) k. (Reads-trans p inside q two k, tt)

read_backref_name-Reads : (p : Parser) → IsParser p → Ends (Later p) (read_backref_name p)
unfolding read_backref_name
read_backref_name-Reads p h =
    let one = skip-Reads p h in
    let q = skip p in
    let ended = skip_while (λ c. not (c == 39)) (drop q.pos q.chars) q in
    let two = skip_while-Reads (λ c. not (c == 39)) (drop q.pos q.chars) q one.valid in
    if-Ends (Later p) (next_is b'<' p) _ _
      (λ _.
        Ends-weaken (Later q) (Later p) (read_group_name q) (λ (name, r). Reads-trans p q r one)
          (read_group_name-Reads q one.valid))
      (λ _.
        if-Ends (Later p) (next_is 39 p) _ _
          (λ _.
            if-Ends (Later p) (not (next_is 39 ended)) _ _ (λ _. tt)
              λ _. Reads-trans p q _ one (Reads-trans q ended _ two (skip-Reads ended two.valid)))
          (λ _. tt))

-- An escape by itself has no group in it.
abbrev NoGroups : ℕ → Option Ast → Type 0
NoGroups groups none = Unit
NoGroups groups (some a) = GroupsAtMost groups a

simple_escape-NoGroups : (groups c : ℕ) → NoGroups groups (simple_escape c)
unfolding simple_escape GroupsAtMost
simple_escape-NoGroups groups c = ground arith

simple_or-Reading :
    (o : Option Ast) (start p : Parser) (other : Parsed (Ast × Parser))
    → Reads start p
    → NoGroups p.group_count o
    → Ends (Reading start) other
    → Ends (Reading start) (simple_or o p other)
simple_or-Reading none start p other h g k = k
simple_or-Reading (some a) start p other h g k = (h, g)

numeric_backref-Reading :
    (start p : Parser) (o : Option ℕ) → Reads start p → Ends (Reading start) (numeric_backref p o)
unfolding GroupsAtMost
numeric_backref-Reading start p none h = tt
numeric_backref-Reading start p (some num) h = (h, tt)

escape_of-Reading :
    (c : ℕ) (before p : Parser) → IsParser p → Ends (Reading p) (escape_of c before p)
unfolding escape_of GroupsAtMost
escape_of-Reading c before p h =
    simple_or-Reading (simple_escape c) p p _ (Reads-refl p h)
      (simple_escape-NoGroups p.group_count c)
      (if-Ends (Reading p) (c == b'k') _ _
        (λ _.
          bind-Ends (Later p) (Reading p) (read_backref_name p) _ (read_backref_name-Reads p h)
            λ (name, q) k.
              on_char-Ends (Reading p) (lookup_name name q.names) _ _ (λ _. tt) (λ num _. (k, tt)))
        (λ _.
          if-Ends (Reading p) (is_ascii_digit c && not (c == b'0')) _ _
            (λ _. numeric_backref-Reading p (skip_digits p) _ (skip_digits-Reads p h))
            (λ _. (Reads-refl p h, tt))))

pub parse_escape-Reading : (p : Parser) → IsParser p → Ends (Reading p) (parse_escape p)
unfolding parse_escape
parse_escape-Reading p h =
    let one = bump-Reads p h in
    on_char-Ends (Reading p) (bump p).0 _ _ (λ _. tt)
      λ c _.
        Ends-weaken (Reading (bump p).1) (Reading p) (escape_of c p (bump p).1)
          (λ (a, q) (k, g). (Reads-trans p (bump p).1 q one k, g))
          (escape_of-Reading c p (bump p).1 one.valid)
