-- ===== src/Vm/Regex/Pike/Rounds.antt =====
-- crates/js-vm/src/regex.rs: the rounds of `add`, each of which follows a run by one instruction.
use justscript.Prelude.{
  ℕ, zero, suc, ◌+◌, ◌≤◌, ◌<◌, ◌≡◌, refl, ap, Bool, true, false, Option, none, some, List, [], ◌∷◌,
  ◌++◌, arith, if◌then◌else◌, ◌>>=◌, on_some, get_elem?, get_or, set, replicate, All, Text,
}
use justscript.Vm.Regex.{
  Insn, char, class, dot, start, end, word_b, not_word_b, jmp, split, save, matched, RegexProgram,
  Caps,
}
use justscript.Vm.Regex.Pike.{mark, Threads, onward, move, act, add}
use justscript.Vm.Regex.Pike.Runs.{
  Runs, jump, left, right, saved, started, ended, bounded, unbounded, Accepts,
}

-- Instructions not seen yet.
unfoldable pub unseen : List Bool → ℕ
unseen [] = 0
unseen (v ∷ vs) = if v then unseen vs else suc (unseen vs)

pub unseen-set :
    (vs : List Bool) (pc : ℕ)
    → get_or vs pc true ≡ false
    → suc (unseen (set vs pc true)) ≡ unseen vs
unfolding unseen
unseen-set [] pc h = absurd (cc)
unseen-set (v ∷ vs) zero h = rw h refl
unseen-set (true ∷ vs) (suc pc) h = unseen-set vs pc h
unseen-set (false ∷ vs) (suc pc) h = ap suc (unseen-set vs pc h)

pub unseen-replicate : (n : ℕ) → unseen (replicate n false) ≡ n
unfolding unseen
unseen-replicate zero = refl
unseen-replicate (suc n) = ap suc (unseen-replicate n)

-- A value of which `P` holds.
abbrev pub Yields {ℓ} : {A : Type ℓ} → (A → Type 0) → Option A → Type 0
Yields P none = ⊥
Yields P (some a) = P a

pub bind-Yields {ℓ κ} :
    {A : Type ℓ} {B : Type κ} (P : A → Type 0) (Q : B → Type 0) (o : Option A) (f : A → Option B)
    → Yields P o
    → ((a : A) → P a → Yields Q (f a))
    → Yields Q (o >>= f)
bind-Yields P Q none f h k = h
bind-Yields P Q (some a) f h k = k a h

pub if-Yields {ℓ} :
    {A : Type ℓ} (P : A → Type 0) (b : Bool) (x y : Option A)
    → (b ≡ true → Yields P x)
    → (b ≡ false → Yields P y)
    → Yields P (if b then x else y)
if-Yields P true x y h k = h refl
if-Yields P false x y h k = k refl

pub on_some-Yields {ℓ κ} :
    {A : Type ℓ} {B : Type κ} (P : B → Type 0) (o : Option A) (x : Option B) (f : A → Option B)
    → (o ≡ none → Yields P x)
    → ((a : A) → o ≡ some a → Yields P (f a))
    → Yields P (on_some o x f)
on_some-Yields P none x f h k = h refl
on_some-Yields P (some a) x f h k = k a refl

Yields-weaken {ℓ} :
    {A : Type ℓ} (P Q : A → Type 0) (o : Option A) → ((a : A) → P a → Q a) → Yields P o → Yields Q o
Yields-weaken P Q none h k = k
Yields-weaken P Q (some a) h k = h a k

module _ (self : RegexProgram) (chars : Text) (origin : ℕ) where
  abbrev pub Found : Option Caps → Type 0
  Found none = Unit
  Found (some caps) = Accepts self chars origin caps

  abbrev pub Reached : ℕ → ℕ × Caps → Type 0
  Reached pos (pc, caps) = Runs self chars origin pc pos caps

  -- The threads at a position are runs to it, and what was accepted is a run to a match.
  pub record Good (pos bound : ℕ) (t : Threads) : Type 0 where
    pub list : All (Reached pos) t.list
    pub accepted : Found t.accepted
    pub rounds : unseen t.visited ≤ bound

  All-append_one :
      (pos : ℕ) (list : List (ℕ × Caps)) (x : ℕ × Caps)
      → All (Reached pos) list
      → Reached pos x
      → All (Reached pos) (list ++ x ∷ [])
  All-append_one pos [] x h k = (k, tt)
  All-append_one pos (y ∷ list) x h k = (h.0, All-append_one pos list x h.1 k)

  pub Good-weaken : (pos m n : ℕ) (t : Threads) → m ≤ n → Good pos m t → Good pos n t
  Good-weaken pos m n t le g = record {
    list = g.list;
    accepted = g.accepted;
    rounds = omega (arith, g.rounds);
  }

  -- The rounds that follow, from any run to this position.
  abbrev pub Again : ℕ → ℕ → (ℕ → Caps → Threads → Option Threads) → Type 0
  Again pos bound again =
      (pc : ℕ) (caps : Caps) (t : Threads)
      → Runs self chars origin pc pos caps
      → Good pos bound t
      → Yields (Good pos bound) (again pc caps t)

  onward-Good :
      (pos bound : ℕ) (again : ℕ → Caps → Threads → Option Threads) (b : Bool) (pc : ℕ)
      (caps : Caps) (t : Threads)
      → Again pos bound again
      → Good pos bound t
      → (b ≡ true → Runs self chars origin (pc + 1) pos caps)
      → Yields (Good pos bound) (act again (onward b pc caps) pc caps t)
  unfolding act
  onward-Good pos bound again true pc caps t h g path = h (pc + 1) caps t (path refl) g
  onward-Good pos bound again false pc caps t h g path = g

  held :
      (pos bound pc : ℕ) (caps : Caps) (t : Threads)
      → Good pos bound t
      → Runs self chars origin pc pos caps
      → Good pos bound (record t { list = t.list ++ (pc, caps) ∷ [] })
  held pos bound pc caps t g p = record {
    list = All-append_one pos t.list (pc, caps) g.list p;
    accepted = g.accepted;
    rounds = g.rounds;
  }

  pub act-Good :
      (pos bound : ℕ) (again : ℕ → Caps → Threads → Option Threads) (insn : Insn) (pc : ℕ)
      (caps : Caps) (t : Threads)
      → Again pos bound again
      → Good pos bound t
      → get_elem? self.insns pc ≡ some insn
      → Runs self chars origin pc pos caps
      → Yields (Good pos bound) (act again (move self chars insn pc caps pos) pc caps t)
  unfolding act move
  act-Good pos bound again (jmp x) pc caps t h g e p = h x caps t (jump e p) g
  act-Good pos bound again (split a b) pc caps t h g e p =
      bind-Yields (Good pos bound) (Good pos bound) (again a caps t) _ (h a caps t (left e p) g)
        λ t' g'. h b caps t' (right e p) g'
  act-Good pos bound again (save slot) pc caps t h g e p =
      h (pc + 1) (set caps slot (some pos)) t (saved e p) g
  act-Good pos bound again matched pc caps t h g e p = record {
    list = g.list;
    accepted = record { pc = pc; pos = pos; path = p; at_match = e };
    rounds = g.rounds;
  }
  act-Good pos bound again start pc caps t h g e p =
      onward-Good pos bound again _ pc caps t h g (λ k. started e k p)
  act-Good pos bound again end pc caps t h g e p =
      onward-Good pos bound again _ pc caps t h g (λ k. ended e k p)
  act-Good pos bound again word_b pc caps t h g e p =
      onward-Good pos bound again _ pc caps t h g (λ k. bounded e k p)
  act-Good pos bound again not_word_b pc caps t h g e p =
      onward-Good pos bound again _ pc caps t h g (λ k. unbounded e k p)
  act-Good pos bound again (char c) pc caps t h g e p = held pos bound pc caps t g p
  act-Good pos bound again (class r n) pc caps t h g e p = held pos bound pc caps t g p
  act-Good pos bound again dot pc caps t h g e p = held pos bound pc caps t g p

  -- An instruction that was not seen: marking it leaves one less.
  add_new-Good :
      (pos rounds bound : ℕ)
      → bound < suc rounds
      → ((b : ℕ) → b < rounds → Again pos b (add self chars pos rounds))
      → (insn : Insn) (pc : ℕ) (caps : Caps) (t : Threads) → Runs self chars origin pc pos caps
      → Good pos bound t
      → get_elem? self.insns pc ≡ some insn
      → get_or t.visited pc true ≡ false
      → Yields
          (Good pos bound)
          (act (add self chars pos rounds) (move self chars insn pc caps pos) pc caps (mark pc t))
  add_new-Good pos rounds zero lt ih insn pc caps t p g e new =
      absurd (omega (arith, unseen-set t.visited pc new, g.rounds))
  add_new-Good pos rounds (suc bound) lt ih insn pc caps t p g e new =
      let marked : Good pos bound (mark pc t) = record {
        list = g.list;
        accepted = g.accepted;
        rounds = omega (arith, unseen-set t.visited pc new, g.rounds);
      } in
      Yields-weaken (Good pos bound) (Good pos (suc bound)) _
        (λ t' g'. Good-weaken pos bound (suc bound) t' (omega arith) g')
        (act-Good pos bound (add self chars pos rounds) insn pc caps (mark pc t)
          (ih bound (omega arith)) marked e p)

  -- Rounds beyond the instructions not seen are enough, and no instruction is seen less for it.
  pub add-Good :
      (pos rounds bound : ℕ) → bound < rounds → Again pos bound (add self chars pos rounds)
  unfolding add
  add-Good pos zero bound lt pc caps t p g = absurd (omega arith)
  add-Good pos (suc rounds) bound lt pc caps t p g =
      on_some-Yields (Good pos bound) (get_elem? self.insns pc) (some t) _ (λ _. g)
        λ insn e.
          if-Yields (Good pos bound) (get_or t.visited pc true) (some t) _ (λ _. g)
            (λ new. add_new-Good pos rounds bound lt (add-Good pos rounds) insn pc caps t p g e new)
