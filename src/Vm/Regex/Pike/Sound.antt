-- ===== src/Vm/Regex/Pike/Sound.antt =====
-- crates/js-vm/src/regex.rs: the simulation ends, and what it finds is a run of the compiled pattern.
use justscript.Prelude.{
  ℕ, zero, suc, ◌+◌, ◌≡◌, refl, ap, ◌∙◌, Bool, true, false, Option, none, some, List, [], ◌∷◌,
  arith, if◌then◌else◌, length, get_elem?, drop, All, Text,
}
use justscript.Vm.Regex.{Insn, matched, RegexProgram, Caps}
use justscript.Vm.Regex.Chars.{char_at}
use justscript.Vm.Regex.Pike.{
  Threads, add, consumes, add_rounds, step_all, fresh, is_empty, step_text, is_match, first_match,
  no_caps, pike_chars,
}
use justscript.Vm.Regex.Pike.Runs.{begin, read}
use justscript.Vm.Regex.Pike.Rounds.{
  unseen-replicate, Yields, bind-Yields, if-Yields, Found, Reached, Good, add-Good,
}

-- The characters from a position on, one at a time.
drop-cons :
    (chars : Text) (at c : ℕ) (cs : Text)
    → drop at chars ≡ c ∷ cs
    → (char_at chars at ≡ some c) × (drop (suc at) chars ≡ cs)
drop-cons [] zero c cs e = absurd (cc)
drop-cons [] (suc at) c cs e = absurd (cc)
drop-cons (x ∷ chars) zero c cs e = (ap (λ l. char_at l 0) e, ap (drop 1) e)
drop-cons (x ∷ chars) (suc at) c cs e = drop-cons chars at c cs e

suc_lem : (n : ℕ) → n + 1 ≡ suc n
suc_lem n = omega arith

module _ (self : RegexProgram) (chars : Text) (origin : ℕ) where
  abbrev bound : ℕ
  bound = length self.insns

  fresh-Good :
      (pos : ℕ) (accepted : Option Caps)
      → Found self chars origin accepted
      → Good self chars origin pos bound (fresh self accepted)
  fresh-Good pos accepted h = record {
    list = tt;
    accepted = h;
    rounds = omega (arith, unseen-replicate (length self.insns));
  }

  step_all-Good :
      (c pos : ℕ) (list : List (ℕ × Caps)) (next : Threads)
      → char_at chars pos ≡ some c
      → All (Reached self chars origin pos) list
      → Good self chars origin (pos + 1) bound next
      → Yields (Good self chars origin (pos + 1) bound) (step_all self chars c pos list next)
  unfolding step_all
  step_all-Good c pos [] next e h g = g
  step_all-Good c pos ((pc, caps) ∷ list) next e h g =
      let Next = Good self chars origin (pos + 1) bound in
      if-Yields Next (consumes self (get_elem? self.insns pc) c) _ _
        (λ consumed.
          bind-Yields Next Next (add self chars (pos + 1) (add_rounds self) (pc + 1) caps next) _
            (add-Good self chars origin (pos + 1) (add_rounds self) bound (omega arith) (pc + 1)
              caps next (read e consumed h.0) g)
            λ next' g'. step_all-Good c pos list next' e h.1 g')
        (λ _. step_all-Good c pos list next e h.1 g)

  -- Some position at which the threads stand.
  abbrev Somewhere : Threads → Type 0
  Somewhere t = (pos : ℕ) × Good self chars origin pos bound t

  step_text-Good :
      (pos : ℕ) (cs : Text) (t : Threads)
      → drop pos chars ≡ cs
      → Good self chars origin pos bound t
      → Yields Somewhere (step_text self chars pos cs t)
  unfolding step_text
  step_text-Good pos [] t e g = (pos, g)
  step_text-Good pos (c ∷ cs) t e g =
      let (here, rest) = drop-cons chars pos c cs e in
      bind-Yields (Good self chars origin (pos + 1) bound) Somewhere _ _
        (step_all-Good c pos t.list (fresh self t.accepted) here g.list
          (fresh-Good (pos + 1) t.accepted g.accepted))
        λ next g'.
          if-Yields Somewhere (is_empty next.list) (some next) _ (λ _. (pos + 1, g'))
            (λ _.
              let after : drop (pos + 1) chars ≡ cs = ap (λ n. drop n chars) (suc_lem pos) ∙ rest in
              step_text-Good (pos + 1) cs next after g')

  is_match-matched : (o : Option Insn) → is_match o ≡ true → o ≡ some matched
  is_match-matched (some matched) e = refl
  is_match-matched (some _) e = absurd (cc)
  is_match-matched none e = absurd (cc)

  if-Found :
      (b : Bool) (x y : Option Caps)
      → (b ≡ true → Found self chars origin x)
      → Found self chars origin y
      → Found self chars origin (if b then x else y)
  if-Found true x y h k = h refl
  if-Found false x y h k = k

  first_match-Found :
      (pos : ℕ) (list : List (ℕ × Caps)) (accepted : Option Caps)
      → All (Reached self chars origin pos) list
      → Found self chars origin accepted
      → Found self chars origin (first_match self list accepted)
  unfolding first_match
  first_match-Found pos [] accepted h g = g
  first_match-Found pos ((pc, caps) ∷ list) accepted h g =
      if-Found (is_match (get_elem? self.insns pc)) (some caps) _
        (λ e. record { pc = pc; pos = pos; path = h.0; at_match = is_match-matched _ e })
        (first_match-Found pos list accepted h.1 g)

  -- The simulation from any position ends within its rounds, and captures that it gives are those
  -- of a run of the instructions from that position to a match.
  pub pike_chars-Found : Yields (Found self chars origin) (pike_chars self chars origin)
  unfolding pike_chars
  pike_chars-Found =
      bind-Yields (Good self chars origin origin bound) (Found self chars origin) _ _
        (add-Good self chars origin origin (add_rounds self) bound (omega arith) 0 (no_caps self)
          (fresh self none) begin (fresh-Good origin none tt))
        λ first g.
          bind-Yields Somewhere (Found self chars origin) _ _
            (step_text-Good origin (drop origin chars) first refl g)
            λ last (pos, g'). first_match-Found pos last.list last.accepted g'.list g'.accepted
