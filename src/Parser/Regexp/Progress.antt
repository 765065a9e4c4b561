-- ===== src/Parser/Regexp/Progress.antt =====
-- crates/js-parser/src/regexp.rs: every round of the check moves on and stays within the pattern.
use justscript.Parser.Regexp.Validate.{
  named_prefix, group_prefix, braces_end, braces_rest, braced_quantifier,
}
use justscript.Parser.Regexp.{
  GroupKind, atom, ClassAtom, singleton, set_escape, ok, is_at, is_digit, scan_at, decimal,
  parse_escape_kind,
}
use justscript.Parser.Regexp.Bounds.{
  Checks, bind-Checks, if-Checks, on_some-Checks, Checks-weaken, scan_at-bounds, is_at_lt,
  or-neither, not-false, below_le, Between, BetweenAtom, parse_escape_kind-Between,
}
use justscript.Parser.Regexp.Classes.{
  parse_class_atom, range_of, range_end, class_from, parse_class,
}
use justscript.Prelude.{
  ℕ, zero, suc, ◌+◌, ◌-◌, ◌≤◌, ◌<◌, ◌≡◌, refl, inl, inr, Bool, true, false, not, ◌&&◌, ◌||◌, Option,
  none, some, arith, leb, if◌then◌else◌, Bool-cases, ◌==◌, on_some, length, get_elem?,
  get_elem?-some_lt, Text, nat_eq, list_eq,
}

or-second : (a b : Bool) → (a || b) ≡ true → a ≡ false → b ≡ true
or-second true b e h = absurd (cc)
or-second false b e h = e

module _ (chars : Text) where
  -- Past `pos`, and within the pattern.
  abbrev pub Past : ℕ → ℕ → Type 0
  Past pos end = Between chars (pos + 1) end

  abbrev pub PastAtom : ℕ → ℕ × ClassAtom → Type 0
  PastAtom pos (end, _) = Past pos end

  pub escape-Past :
      (pos : ℕ) (unicode in_class : Bool) (captures : ℕ)
      → Checks (PastAtom pos) (parse_escape_kind chars pos unicode in_class captures)
  escape-Past pos unicode in_class captures =
      Checks-weaken (BetweenAtom chars (pos + 2)) (PastAtom pos) _
        (λ (end, a) (lower, upper). (omega arith, upper))
        (parse_escape_kind-Between chars pos unicode in_class captures)

  parse_class_atom-Past :
      (pos : ℕ) (unicode : Bool) (captures : ℕ)
      → Checks (PastAtom pos) (parse_class_atom chars pos unicode captures)
  unfolding parse_class_atom
  parse_class_atom-Past pos unicode captures =
      if-Checks (PastAtom pos) (is_at chars pos b'\\') _ _
        (λ _. escape-Past pos unicode true captures)
        λ _.
          on_some-Checks (PastAtom pos) (get_elem? chars pos) _ _ (λ _. tt)
            λ c e. (omega arith, omega (arith, get_elem?-some_lt chars pos e))

  range_of-Past :
      (pos next : ℕ) (a b : ClassAtom) → Past pos next → Checks (Past pos) (range_of a b next)
  range_of-Past pos next (singleton a) (singleton b) h =
      if-Checks (Past pos) (leb a b) (ok next) _ (λ _. h) (λ _. tt)
  range_of-Past pos next (singleton a) set_escape h = tt
  range_of-Past pos next set_escape b h = tt

  range_end-Past :
      (start pos : ℕ) (left : ClassAtom) (unicode : Bool) (captures : ℕ)
      → Past start pos
      → Checks (Past start) (range_end chars pos left unicode captures)
  unfolding range_end
  range_end-Past start pos left unicode captures h =
      if-Checks (Past start) (is_at chars pos b'-' && not (is_at chars (pos + 1) b']')) _ (ok pos)
        (λ _.
          bind-Checks (PastAtom (pos + 1)) (Past start)
            (parse_class_atom chars (pos + 1) unicode captures) _
            (parse_class_atom-Past (pos + 1) unicode captures)
            λ (next, right) (lower, upper).
              let later : Past start next = (omega (arith, h.0), upper) in
              if-Checks (Past start) unicode _ (ok next)
                (λ _. range_of-Past start next left right later) (λ _. later))
        (λ _. h)

  -- The end of a bounded quantifier, where there is one.
  abbrev pub Braces : ℕ → Option (ℕ × ℕ × Option ℕ) → Type 0
  Braces pos none = Unit
  Braces pos (some (end, _, _)) = Past pos end

  if-Braces :
      (pos : ℕ) (b : Bool) (x y : Option (ℕ × ℕ × Option ℕ))
      → (b ≡ true → Braces pos x)
      → (b ≡ false → Braces pos y)
      → Braces pos (if b then x else y)
  if-Braces pos true x y h k = h refl
  if-Braces pos false x y h k = k refl

  on_some-Braces :
      (pos : ℕ) (o : Option ℕ) (f : ℕ → Option (ℕ × ℕ × Option ℕ))
      → ((n : ℕ) → Braces pos (f n))
      → Braces pos (on_some o none f)
  on_some-Braces pos none f h = tt
  on_some-Braces pos (some n) f h = h n

  -- Each round of a class reads at least one character.
  class_from-Past :
      (rounds start pos : ℕ) (unicode : Bool) (captures : ℕ)
      → start ≤ pos
      → pos ≤ length chars
      → length chars < pos + rounds
      → Checks (Past start) (class_from rounds chars pos unicode captures)
  unfolding class_from
  class_from-Past zero start pos unicode captures h le fuel = absurd (omega arith)
  class_from-Past (suc rounds) start pos unicode captures h le fuel =
      on_some-Checks (Past start) (get_elem? chars pos) _ _ (λ _. tt)
        λ c e.
          if-Checks (Past start) (c == b']') (ok (pos + 1)) _
            (λ _. (omega arith, omega (arith, get_elem?-some_lt chars pos e)))
            λ _.
              bind-Checks (PastAtom pos) (Past start) (parse_class_atom chars pos unicode captures)
                _ (parse_class_atom-Past pos unicode captures)
                λ (next, left) k.
                  bind-Checks (Past pos) (Past start) (range_end chars next left unicode captures) _
                    (range_end-Past pos next left unicode captures k)
                    λ after (lower, upper).
                      class_from-Past rounds start after unicode captures (omega arith) upper
                        (omega arith)

  class_start :
      (b : Bool) (pos : ℕ)
      → pos < length chars
      → (b ≡ true → pos + 1 < length chars)
      → Between chars pos (if b then pos + 2 else pos + 1)
  class_start true pos lt h = (omega arith, omega (arith, h refl))
  class_start false pos lt h = (omega arith, omega arith)

  pub parse_class-Past :
      (pos : ℕ) (unicode : Bool) (captures : ℕ)
      → pos < length chars
      → Checks (Past pos) (parse_class chars pos unicode captures)
  unfolding parse_class
  parse_class-Past pos unicode captures lt =
      let (lower, upper) =
        class_start (is_at chars (pos + 1) b'^') pos lt (λ e. is_at_lt chars (pos + 1) b'^' e) in
      class_from-Past (suc (length chars)) pos
        (if is_at chars (pos + 1) b'^' then pos + 2 else pos + 1) unicode captures (omega arith)
        upper (omega arith)

  -- The length of a group's prefix.
  abbrev pub Prefix : ℕ → GroupKind × ℕ → Type 0
  Prefix pos (kind, prefix_len) = Past pos (pos + prefix_len)

  named_prefix-Prefix :
      (pos : ℕ) → pos + 3 ≤ length chars → Checks (Prefix pos) (named_prefix chars pos)
  unfolding named_prefix
  named_prefix-Prefix pos le =
      let end = scan_at chars (pos + 3) (λ c. not (c == b'>')) in
      let (lower, upper) = scan_at-bounds chars (pos + 3) (λ c. not (c == b'>')) le in
      if-Checks (Prefix pos) (end == pos + 3 || end == length chars) _ (ok (atom, end - pos + 1))
        (λ _. tt)
        λ e.
          let short : (end == length chars) ≡ false = (or-neither (end == pos + 3) _ e).1 in
          (omega arith, omega (arith, below_le end (length chars) upper short))

  is_at-two : (pos a b : ℕ) → (is_at chars pos a || is_at chars pos b) ≡ true → pos < length chars
  is_at-two pos a b e = elim (Bool-cases (is_at chars pos a)) [
    | inl h ↦ is_at_lt chars pos a h
    | inr h ↦ is_at_lt chars pos b (or-second (is_at chars pos a) _ e h)
  ]

  pub group_prefix-Prefix :
      (pos : ℕ) → pos < length chars → Checks (Prefix pos) (group_prefix chars pos)
  unfolding group_prefix
  group_prefix-Prefix pos lt =
      let P = Prefix pos in
      if-Checks P (not (is_at chars (pos + 1) b'?')) _ _ (λ _. (omega arith, omega arith))
        λ _.
          if-Checks P (is_at chars (pos + 2) b':') _ _
            (λ e. (omega arith, omega (arith, is_at_lt chars (pos + 2) b':' e)))
            λ _.
              if-Checks P (is_at chars (pos + 2) b'=' || is_at chars (pos + 2) b'!') _ _
                (λ e. (omega arith, omega (arith, is_at-two (pos + 2) b'=' b'!' e)))
                λ _.
                  if-Checks P (not (is_at chars (pos + 2) b'<')) _ _ (λ _. tt)
                    λ e.
                      if-Checks P (is_at chars (pos + 3) b'=' || is_at chars (pos + 3) b'!') _ _
                        (λ k. (omega arith, omega (arith, is_at-two (pos + 3) b'=' b'!' k)))
                        (λ _.
                          named_prefix-Prefix pos
                            (omega (arith, is_at_lt chars (pos + 2) b'<' (not-false _ e))))

  braces_end-Braces :
      (pos cursor least : ℕ) (most : Option ℕ)
      → pos ≤ cursor
      → Braces pos (braces_end chars cursor least most)
  braces_end-Braces pos cursor least most h =
      if-Braces pos (is_at chars cursor b'}') (some (cursor + 1, least, most)) none
        (λ e. (omega arith, omega (arith, is_at_lt chars cursor b'}' e))) (λ _. tt)

  braces_rest-Braces :
      (pos cursor least : ℕ) → pos ≤ cursor → Braces pos (braces_rest chars cursor least)
  unfolding braces_rest
  braces_rest-Braces pos cursor least h =
      let end = scan_at chars (cursor + 1) is_digit in
      if-Braces pos (not (is_at chars cursor b',')) _ _
        (λ _. braces_end-Braces pos cursor least (some least) h)
        λ e.
          let comma = is_at_lt chars cursor b',' (not-false _ e) in
          let (lower, upper) = scan_at-bounds chars (cursor + 1) is_digit (omega arith) in
          if-Braces pos (end == cursor + 1) _ _
            (λ _. braces_end-Braces pos end least none (omega arith))
            λ _.
              on_some-Braces pos (decimal chars (cursor + 1) end) _
                λ most. braces_end-Braces pos end least (some most) (omega arith)

  pub braced_quantifier-Braces :
      (pos : ℕ) → pos < length chars → Braces pos (braced_quantifier chars pos)
  unfolding braced_quantifier
  braced_quantifier-Braces pos lt =
      let end = scan_at chars (pos + 1) is_digit in
      let (lower, upper) = scan_at-bounds chars (pos + 1) is_digit (omega arith) in
      if-Braces pos (end == pos + 1) none _ (λ _. tt)
        λ _.
          on_some-Braces pos (decimal chars (pos + 1) end) _
            λ least. braces_rest-Braces pos end least (omega arith)
