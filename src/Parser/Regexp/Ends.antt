-- ===== src/Parser/Regexp/Ends.antt =====
-- crates/js-parser/src/regexp.rs: the check of every pattern ends.
use justscript.Parser.Regexp.Validate.{
  Scan, require_quantifiable, group_prefix, close_group, pop_group, brace_found, below, brace,
  quantifier, step, closed, validate_from, capture_count, validate_pattern,
}
use justscript.Parser.Regexp.{GroupKind, Checked, ok, err, starved, is_one_of, parse_escape_kind}
use justscript.Parser.Regexp.Bounds.{Checks, bind-Checks, if-Checks, on_some-Checks}
use justscript.Parser.Regexp.Classes.{parse_class}
use justscript.Parser.Regexp.Progress.{
  Past, PastAtom, Prefix, Braces, escape-Past, parse_class-Past, group_prefix-Prefix,
  braced_quantifier-Braces,
}
use justscript.Prelude.{
  ℕ, zero, suc, ◌+◌, ◌≤◌, ◌<◌, ◌≢◌, Bool, true, false, ◌&&◌, ◌||◌, Option, none, some, List, [],
  ◌∷◌, arith, ◌==◌, length, get_elem?, get_elem?-some_lt, Text, nat_eq, list_eq,
}

module _ (chars : Text) where
  -- The scan has moved on, and is still within the pattern.
  abbrev Moved : Scan → Scan → Type 0
  Moved s s' = Past chars s.pos s'.pos

  require_quantifiable-Checks :
      (kind : Option GroupKind) (unicode : Bool)
      → Checks (λ _. Unit {0}) (require_quantifiable kind unicode)
  unfolding require_quantifiable
  require_quantifiable-Checks none unicode = tt
  require_quantifiable-Checks (some GroupKind.atom) unicode = tt
  require_quantifiable-Checks (some GroupKind.look_ahead) true = tt
  require_quantifiable-Checks (some GroupKind.look_ahead) false = tt
  require_quantifiable-Checks (some GroupKind.assertion) unicode = tt

  pop_group-Moved :
      (groups : List GroupKind) (s : Scan)
      → s.pos < length chars
      → Checks (Moved s) (pop_group groups s)
  pop_group-Moved [] s lt = tt
  pop_group-Moved (kind ∷ groups) s lt = (omega arith, omega arith)

  close_group-Moved : (s : Scan) → s.pos < length chars → Checks (Moved s) (close_group s)
  close_group-Moved s lt = pop_group-Moved s.groups s lt

  brace_found-Moved :
      (s : Scan) (unicode : Bool) (o : Option (ℕ × ℕ × Option ℕ))
      → s.pos < length chars
      → Braces chars s.pos o
      → Checks (Moved s) (brace_found unicode s o)
  brace_found-Moved s true none lt h = tt
  brace_found-Moved s false none lt h = (omega arith, omega arith)
  brace_found-Moved s unicode (some (end, least, most)) lt h =
      bind-Checks (λ _. Unit {0}) (Moved s) (require_quantifiable s.quantifiable unicode) _
        (require_quantifiable-Checks s.quantifiable unicode)
        λ _ _. if-Checks (Moved s) (below least most) _ _ (λ _. tt) (λ _. h)

  quantifier-Moved :
      (c : ℕ) (unicode : Bool) (s : Scan)
      → s.pos < length chars
      → Checks (Moved s) (quantifier c unicode s)
  unfolding quantifier
  quantifier-Moved c unicode s lt =
      if-Checks (Moved s) (c == b'?' && s.just_quantified) _ _ (λ _. (omega arith, omega arith))
        λ _.
          bind-Checks (λ _. Unit {0}) (Moved s) (require_quantifiable s.quantifiable unicode) _
            (require_quantifiable-Checks s.quantifiable unicode) λ _ _. (omega arith, omega arith)

  step-Moved :
      (unicode : Bool) (captures c : ℕ) (s : Scan)
      → s.pos < length chars
      → Checks (Moved s) (step chars unicode captures c s)
  unfolding step brace
  step-Moved unicode captures c s lt =
      let P = Moved s in
      let next : Past chars s.pos (s.pos + 1) = (omega arith, omega arith) in
      if-Checks P (c == b'\\') _ _
        (λ _.
          bind-Checks (PastAtom chars s.pos) P
            (parse_escape_kind chars s.pos unicode false captures) _
            (escape-Past chars s.pos unicode false captures) (λ (end, kind) h. h))
        λ _.
          if-Checks P (c == b'[') _ _
            (λ _.
              bind-Checks (Past chars s.pos) P (parse_class chars s.pos unicode captures) _
                (parse_class-Past chars s.pos unicode captures lt) (λ end h. h))
            λ _.
              if-Checks P (c == b'(') _ _
                (λ _.
                  bind-Checks (Prefix chars s.pos) P (group_prefix chars s.pos) _
                    (group_prefix-Prefix chars s.pos lt) (λ (kind, prefix_len) h. h))
                λ _.
                  if-Checks P (c == b')') _ _ (λ _. close_group-Moved s lt)
                    λ _.
                      if-Checks P (c == b'^' || c == b'$') _ _ (λ _. next)
                        λ _.
                          if-Checks P (c == b'|') _ _ (λ _. next)
                            λ _.
                              if-Checks P (c == b'*' || c == b'+' || c == b'?') _ _
                                (λ _. quantifier-Moved c unicode s lt)
                                λ _.
                                  if-Checks P (c == b'{') _ _
                                    (λ _.
                                      brace_found-Moved s unicode _ lt
                                        (braced_quantifier-Braces chars s.pos lt))
                                    λ _.
                                      if-Checks P (unicode && (c == b']' || c == b'}')) _ _
                                        (λ _. tt) (λ _. next)

  closed-Checks : (groups : List GroupKind) → Checks (λ _. Unit {0}) (closed groups)
  closed-Checks [] = tt
  closed-Checks (_ ∷ _) = tt

  validate_from-Checks :
      (rounds : ℕ) (unicode : Bool) (captures : ℕ) (s : Scan)
      → s.pos ≤ length chars
      → length chars < s.pos + rounds
      → Checks (λ _. Unit {0}) (validate_from rounds chars unicode captures s)
  unfolding validate_from
  validate_from-Checks zero unicode captures s le fuel = absurd (omega arith)
  validate_from-Checks (suc rounds) unicode captures s le fuel =
      on_some-Checks (λ _. Unit {0}) (get_elem? chars s.pos) _ _ (λ _. closed-Checks s.groups)
        λ c e.
          bind-Checks (Moved s) (λ _. Unit {0}) (step chars unicode captures c s) _
            (step-Moved unicode captures c s (get_elem?-some_lt chars s.pos e))
            λ s' (lower, upper). validate_from-Checks rounds unicode captures s' upper (omega arith)

Checks-starved {ℓ} : {A : Type ℓ} (r : Checked A) → Checks (λ _. Unit {0}) r → r ≢ starved
Checks-starved (ok a) h = λ bad. absurd (cc)
Checks-starved (err e) h = λ bad. absurd (cc)
Checks-starved starved h = absurd h

-- The check of any pattern with any flags ends, in an acceptance or in one of its errors.
pub validate_pattern-ends : (pattern flags : Text) → validate_pattern pattern flags ≢ starved
unfolding validate_pattern
validate_pattern-ends pattern flags = Checks-starved (validate_pattern pattern flags) (
    validate_from-Checks pattern (suc (length pattern)) (is_one_of b'u' flags)
      (capture_count pattern)
      (record { pos = 0; groups = []; quantifiable = none; just_quantified = false }) (omega arith)
      (omega arith))
