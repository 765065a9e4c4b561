-- ===== src/Parser/Regexp/Bounds.antt =====
-- crates/js-parser/src/regexp.rs: the positions that the escapes and the classes return.
use justscript.Prelude.{
  ℕ, zero, suc, ◌+◌, ◌-◌, ◌*◌, ◌^◌, ◌≤◌, ◌<◌, ◌≡◌, refl, inl, inr, Bool, true, false, not, ◌&&◌,
  ◌||◌, Option, none, some, [], ◌∷◌, arith, ltb, leb, if◌then◌else◌, leb→le, Bool-cases,
  Option-cases, ◌==◌, on_some, length, get_elem?, drop, get_elem?-some_lt, Text, codes, nat_eq,
  list_eq,
}
use justscript.Parser.Regexp.{
  ClassAtom, singleton, set_escape, Fault, Checked, ok, err, starved, ◌>>=◌, at, is_at, is_digit,
  scan, scan_at, slice, decimal, fixed_hex_escape, hex_digit, hex_value, code_point_end,
  unicode_escape, enclosed, control_escape, decimal_escape, is_one_of, with_atom, unicode_only,
  escape_of, parse_escape_kind, is_alphabetic, all_hex,
}

-- A result for which `P` holds, or an error, but never the end of the rounds.
abbrev pub Checks {ℓ} : {A : Type ℓ} → (A → Type 0) → Checked A → Type 0
Checks P (ok a) = P a
Checks P (err _) = Unit
Checks P starved = ⊥

pub bind-Checks {ℓ κ} :
    {A : Type ℓ} {B : Type κ} (P : A → Type 0) (Q : B → Type 0) (r : Checked A) (f : A → Checked B)
    → Checks P r
    → ((a : A) → P a → Checks Q (f a))
    → Checks Q (r >>= f)
bind-Checks P Q (ok a) f h k = k a h
bind-Checks P Q (err _) f h k = tt
bind-Checks P Q starved f h k = h

pub if-Checks {ℓ} :
    {A : Type ℓ} (P : A → Type 0) (b : Bool) (r s : Checked A)
    → (b ≡ true → Checks P r)
    → (b ≡ false → Checks P s)
    → Checks P (if b then r else s)
if-Checks P true r s h k = h refl
if-Checks P false r s h k = k refl

pub on_some-Checks {ℓ κ} :
    {A : Type ℓ} {B : Type κ} (P : B → Type 0) (o : Option A) (r : Checked B) (f : A → Checked B)
    → (o ≡ none → Checks P r)
    → ((a : A) → o ≡ some a → Checks P (f a))
    → Checks P (on_some o r f)
on_some-Checks P none r f h k = h refl
on_some-Checks P (some a) r f h k = k a refl

pub Checks-weaken {ℓ} :
    {A : Type ℓ} (P Q : A → Type 0) (r : Checked A)
    → ((a : A) → P a → Q a)
    → Checks P r
    → Checks Q r
Checks-weaken P Q (ok a) f h = f a h
Checks-weaken P Q (err _) f h = tt
Checks-weaken P Q starved f h = h

length-drop : (n : ℕ) (cs : Text) → length (drop n cs) ≡ length cs - n
length-drop zero cs = omega arith
length-drop (suc n) [] = omega arith
length-drop (suc n) (c ∷ cs) = omega (arith, length-drop n cs)

scan-bounds :
    (test : ℕ → Bool) (cs : Text) (pos : ℕ)
    → (pos ≤ scan test cs pos) × (scan test cs pos ≤ pos + length cs)
unfolding scan
scan-bounds test [] pos = (omega arith, omega arith)
scan-bounds test (c ∷ cs) pos =
    let (lower, upper) = scan-bounds test cs (pos + 1) in
    elim (Bool-cases (test c)) [
      | inl e ↦ rw e (omega arith, omega arith)
      | inr e ↦ rw e (omega arith, omega arith)
    ]

-- Scanning from a position of the text ends in the text.
pub scan_at-bounds :
    (chars : Text) (pos : ℕ) (test : ℕ → Bool)
    → pos ≤ length chars
    → (pos ≤ scan_at chars pos test) × (scan_at chars pos test ≤ length chars)
scan_at-bounds chars pos test le =
    let (lower, upper) = scan-bounds test (drop pos chars) pos in
    (lower, omega (arith, length-drop pos chars))

pub is_at_lt : (chars : Text) (pos c : ℕ) → is_at chars pos c ≡ true → pos < length chars
is_at_lt chars pos c e = elim (Option-cases (get_elem? chars pos)) [
  | inl none' ↦ absurd (cc)
  | inr (d, some') ↦ get_elem?-some_lt chars pos some'
]

pub and-both : (a b : Bool) → (a && b) ≡ true → (a ≡ true) × (b ≡ true)
and-both true true e = (refl, refl)
and-both true false e = absurd (cc)
and-both false b e = absurd (cc)

pub or-neither : (a b : Bool) → (a || b) ≡ false → (a ≡ false) × (b ≡ false)
or-neither false b e = (refl, e)
or-neither true b e = absurd (cc)

pub not-false : (a : Bool) → not a ≡ false → a ≡ true
not-false true e = refl
not-false false e = absurd (cc)

pub below_le : (a b : ℕ) → a ≤ b → (a == b) ≡ false → a + 1 ≤ b
below_le a b le e = ground arith

-- Behind `from`, and in the text.
abbrev pub Between : Text → ℕ → ℕ → Type 0
Between chars from end = (from ≤ end) × (end ≤ length chars)

abbrev pub BetweenAtom : Text → ℕ → ℕ × ClassAtom → Type 0
BetweenAtom chars from (end, _) = Between chars from end

module _ (chars : Text) where
  fixed_hex_escape-Between :
      (start digits : ℕ) → Checks (Between chars start) (fixed_hex_escape chars start digits)
  unfolding fixed_hex_escape
  fixed_hex_escape-Between start digits =
      let fits = leb (start + digits) (length chars) in
      let hex = all_hex (slice chars start (start + digits)) in
      if-Checks (Between chars start) (fits && hex) (ok (start + digits)) _
        (λ e. (omega arith, leb→le _ _ (and-both fits hex e).0)) (λ _. tt)

  abbrev BetweenValue : ℕ → ℕ × ℕ → Type 0
  BetweenValue from (end, _) = Between chars from end

  hex_value-Between :
      (cs : Text) (from end value : ℕ)
      → from ≤ end
      → end + length cs ≤ length chars
      → Checks (BetweenValue from) (hex_value cs end value)
  unfolding hex_value
  hex_value-Between [] from end value h k = (h, omega arith)
  hex_value-Between (c ∷ cs) from end value h k =
      on_some-Checks (BetweenValue from) (hex_digit c) _ _ (λ _. (h, omega arith))
        λ d _.
          if-Checks (BetweenValue from) (ltb (value * 16) (2 ^ 32) && ltb (value * 16 + d) (2 ^ 32))
            (hex_value cs (end + 1) (value * 16 + d)) _
            (λ _. hex_value-Between cs from (end + 1) (value * 16 + d) (omega arith) (omega arith))
            (λ _. tt)

  code_point_end-Between :
      (start : ℕ) (r : ℕ × ℕ)
      → BetweenValue start r
      → Checks (Between chars start) (code_point_end chars start r)
  code_point_end-Between start (end, value) (lower, upper) =
      let closing = is_at chars end b'}' in
      if-Checks (Between chars start) (end == start || not closing || ltb 0x10ffff value) _
        (ok (end + 1)) (λ _. tt)
        λ e.
          let inside = (or-neither (end == start || not closing) (ltb 0x10ffff value) e).0 in
          let closed = not-false closing (or-neither (end == start) (not closing) inside).1 in
          (omega arith, omega (arith, is_at_lt chars end b'}' closed))

  unicode_escape-Between : (start : ℕ) → Checks (Between chars start) (unicode_escape chars start)
  unfolding unicode_escape
  unicode_escape-Between start =
      if-Checks (Between chars start) (not (is_at chars start b'{')) _ _
        (λ _. fixed_hex_escape-Between start 4)
        λ e.
          let lt = is_at_lt chars start b'{' (not-false _ e) in
          let rest = length-drop (start + 1) chars in
          bind-Checks (BetweenValue (start + 1)) (Between chars start)
            (hex_value (drop (start + 1) chars) (start + 1) 0) _
            (hex_value-Between (drop (start + 1) chars) (start + 1) (start + 1) 0 (omega arith)
              (omega arith))
            λ r k.
              Checks-weaken (Between chars (start + 1)) (Between chars start)
                (code_point_end chars (start + 1) r) (λ end (lower, upper). (omega arith, upper))
                (code_point_end-Between (start + 1) r k)

  enclosed-Between :
      (end opener close : ℕ) (fault : Fault)
      → Checks (Between chars end) (enclosed chars end opener close fault)
  unfolding enclosed
  enclosed-Between end opener close fault =
      let last = scan_at chars (end + 1) (λ c. not (c == close)) in
      if-Checks (Between chars end) (not (is_at chars end opener)) _ _ (λ _. tt)
        λ e.
          let lt = is_at_lt chars end opener (not-false _ e) in
          let (lower, upper) =
            scan_at-bounds chars (end + 1) (λ c. not (c == close)) (omega arith) in
          if-Checks (Between chars end) (last == end + 1 || last == length chars) _ (ok (last + 1))
            (λ _. tt)
            λ k.
              let short : (last == length chars) ≡ false = (or-neither (last == end + 1) _ k).1 in
              (omega arith, below_le last (length chars) upper short)

  abbrev Escape : ℕ → ℕ × ClassAtom → Type 0
  Escape = BetweenAtom chars

  with_atom-Between :
      (from : ℕ) (a : ClassAtom) (r : Checked ℕ)
      → Checks (Between chars from) r
      → Checks (Escape from) (with_atom a r)
  with_atom-Between from a r h = bind-Checks (Between chars from) (Escape from) r _ h (λ end k. k)

  control_escape-Between :
      (end : ℕ) (unicode : Bool)
      → end ≤ length chars
      → Checks (Escape end) (control_escape chars end unicode)
  unfolding control_escape
  control_escape-Between end unicode le =
      on_some-Checks (Escape end) (get_elem? chars end) _ _ (λ _. tt)
        λ control e.
          if-Checks (Escape end) (is_alphabetic control) (ok (end + 1, singleton control)) _
            (λ _. (omega arith, omega (arith, get_elem?-some_lt chars end e)))
            (λ _. if-Checks (Escape end) unicode _ _ (λ _. tt) (λ _. (omega arith, le)))

  decimal_escape-Between :
      (pos : ℕ) (in_class : Bool) (captures : ℕ)
      → pos + 2 ≤ length chars
      → Checks (Escape (pos + 2)) (decimal_escape chars pos in_class captures)
  unfolding decimal_escape
  decimal_escape-Between pos in_class captures le =
      let bounds = scan_at-bounds chars (pos + 2) is_digit le in
      if-Checks (Escape (pos + 2)) in_class _ _ (λ _. tt)
        λ _.
          on_some-Checks (Escape (pos + 2))
            (decimal chars (pos + 1) (scan_at chars (pos + 2) is_digit)) _ _ (λ _. tt)
            λ index _. if-Checks (Escape (pos + 2)) (ltb captures index) _ _ (λ _. tt) (λ _. bounds)

  unicode_only-Between :
      (escaped pos : ℕ) (in_class : Bool) (captures : ℕ)
      → pos + 2 ≤ length chars
      → Checks (Escape (pos + 2)) (unicode_only chars escaped pos in_class captures)
  unfolding unicode_only
  unicode_only-Between escaped pos in_class captures le =
      let at_end = pos + 2 in
      let P = Escape at_end in
      if-Checks P (escaped == b'x') _ _
        (λ _. with_atom-Between at_end (singleton 0) _ (fixed_hex_escape-Between at_end 2))
        λ _.
          if-Checks P (escaped == b'u') _ _
            (λ _. with_atom-Between at_end (singleton 0) _ (unicode_escape-Between at_end))
            λ _.
              if-Checks P (leb 49 escaped && leb escaped 57) _ _
                (λ _. decimal_escape-Between pos in_class captures le)
                λ _.
                  if-Checks P (escaped == b'k') _ _
                    (λ _.
                      with_atom-Between at_end (singleton 0) _
                        (enclosed-Between at_end b'<' b'>' _))
                    λ _.
                      if-Checks P (escaped == b'p' || escaped == b'P') _ _
                        (λ _.
                          with_atom-Between at_end set_escape _
                            (enclosed-Between at_end b'{' b'}' _))
                        λ _.
                          if-Checks P
                            (is_one_of escaped (codes "^$\\.*+?()[]{}|/")
                              || (in_class && escaped == b'-'))
                            _ _ (λ _. (omega arith, le)) (λ _. tt)

  escape_of-Between :
      (escaped pos : ℕ) (unicode in_class : Bool) (captures : ℕ)
      → pos + 2 ≤ length chars
      → Checks (Escape (pos + 2)) (escape_of chars escaped pos unicode in_class captures)
  unfolding escape_of
  escape_of-Between escaped pos unicode in_class captures le =
      let P = Escape (pos + 2) in
      let stay : Between chars (pos + 2) (pos + 2) = (omega arith, le) in
      if-Checks P (is_one_of escaped (codes "dDsSwW")) _ _ (λ _. stay)
        λ _.
          if-Checks P (not in_class && (escaped == b'b' || escaped == b'B')) _ _ (λ _. stay)
            λ _.
              if-Checks P (is_one_of escaped (codes "bfnrtv")) _ _ (λ _. stay)
                λ _.
                  if-Checks P (escaped == b'c') _ _
                    (λ _. control_escape-Between (pos + 2) unicode le)
                    λ _.
                      if-Checks P (escaped == b'0' && not (unicode && at chars (pos + 2) is_digit))
                        _ _ (λ _. stay)
                        λ _.
                          if-Checks P (escaped == b'0') _ _ (λ _. tt)
                            λ _.
                              if-Checks P unicode _ _
                                (λ _. unicode_only-Between escaped pos in_class captures le)
                                (λ _. stay)

  -- An escape ends behind the backslash and the character after it, and within the pattern.
  pub parse_escape_kind-Between :
      (pos : ℕ) (unicode in_class : Bool) (captures : ℕ)
      → Checks (Escape (pos + 2)) (parse_escape_kind chars pos unicode in_class captures)
  unfolding parse_escape_kind
  parse_escape_kind-Between pos unicode in_class captures =
      on_some-Checks (Escape (pos + 2)) (get_elem? chars (pos + 1)) _ _ (λ _. tt)
        λ escaped e.
          escape_of-Between escaped pos unicode in_class captures
            (omega (arith, get_elem?-some_lt chars (pos + 1) e))
