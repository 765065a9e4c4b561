-- ===== src/Parser/Regexp/Classes.antt =====
-- crates/js-parser/src/regexp.rs: character classes.
use justscript.Prelude.{
  ℕ, zero, suc, ◌+◌, Bool, true, not, ◌&&◌, leb, if◌then◌else◌, ◌==◌, on_some, length, get_elem?,
  Text, nat_eq, list_eq,
}
use justscript.Parser.Regexp.{
  ClassAtom, singleton, class_range_out_of_order, escape_as_endpoint, unterminated_class, Checked,
  ok, err, starved, ◌>>=◌, is_at, parse_escape_kind,
}

unfoldable pub parse_class_atom : Text → ℕ → Bool → ℕ → Checked (ℕ × ClassAtom)
unfolding parse_escape_kind
parse_class_atom chars pos unicode captures =
    if is_at chars pos b'\\'
    then parse_escape_kind chars pos unicode true captures
    else on_some (get_elem? chars pos) (err unterminated_class)
        λ character. ok (pos + 1, singleton character)

-- the test of a range in a Unicode pattern
abbrev pub range_of : ClassAtom → ClassAtom → ℕ → Checked ℕ
range_of (singleton a) (singleton b) next =
    if leb a b then ok next else err class_range_out_of_order
range_of _ _ next = err escape_as_endpoint

-- What follows the first atom: the position behind it, or behind the range that it begins.
unfoldable pub range_end : Text → ℕ → ClassAtom → Bool → ℕ → Checked ℕ
unfolding parse_class_atom
range_end chars pos left unicode captures =
    if is_at chars pos b'-' && not (is_at chars (pos + 1) b']')
    then (parse_class_atom chars (pos + 1) unicode captures >>= λ (next, right).
        if unicode then range_of left right next else ok next)
    else ok pos

-- the loop of `parse_class`, each round of which reads an atom
unfoldable pub class_from : ℕ → Text → ℕ → Bool → ℕ → Checked ℕ
unfolding parse_class_atom range_end
class_from zero chars pos unicode captures = starved
class_from (suc rounds) chars pos unicode captures =
    on_some (get_elem? chars pos) (err unterminated_class) λ c.
      if c == b']'
      then ok (pos + 1)
      else (parse_class_atom chars pos unicode captures >>= λ (next, left).
          range_end chars next left unicode captures >>= λ after.
          class_from rounds chars after unicode captures)

unfoldable pub parse_class : Text → ℕ → Bool → ℕ → Checked ℕ
unfolding class_from
parse_class chars start unicode captures =
    let pos = if is_at chars (start + 1) b'^' then start + 2 else start + 1 in
    class_from (suc (length chars)) chars pos unicode captures
