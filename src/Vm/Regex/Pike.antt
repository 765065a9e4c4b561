-- ===== src/Vm/Regex/Pike.antt =====
-- crates/js-vm/src/regex.rs: the simulation of the compiled instructions, thread by thread.
pub mod Runs
pub mod Rounds
pub mod Sound
use justscript.Prelude.{
  ℕ, zero, suc, ◌+◌, ◌*◌, Bool, true, false, not, Option, none, some, List, [], ◌∷◌, ◌++◌,
  if◌then◌else◌, ◌>>=◌, on_some, length, get_elem?, get_or, set, drop, replicate, Text,
}
use justscript.Vm.Regex.{
  Insn, char, class, dot, start, end, word_b, not_word_b, jmp, split, save, matched, RegexProgram,
  Caps,
}
use justscript.Vm.Regex.Chars.{char_eq, class_matches, is_boundary, at_start, at_end, dot_matches}

-- The lists that `add` writes to: the threads that wait for a character, the instructions seen at
-- this position, and the captures of the last thread that matched.
pub record Threads : Type 0 where
  pub list : List (ℕ × Caps)
  pub visited : List Bool
  pub accepted : Option Caps

-- What the loop of `add` does at an instruction.
pub data Move : Type 0 where
  goto : ℕ → Caps → Move
  fork : ℕ → ℕ → Move
  accept : Move
  hold : Move
  stop : Move

abbrev pub onward : Bool → ℕ → Caps → Move
onward holds pc caps = if holds then goto (pc + 1) caps else stop

unfoldable pub move : RegexProgram → Text → Insn → ℕ → Caps → ℕ → Move
unfolding at_start at_end is_boundary
move self chars (jmp x) pc caps pos = goto x caps
move self chars (split a b) pc caps pos = fork a b
move self chars (save slot) pc caps pos = goto (pc + 1) (set caps slot (some pos))
move self chars matched pc caps pos = accept
move self chars start pc caps pos = onward (at_start self chars pos) pc caps
move self chars end pc caps pos = onward (at_end self chars pos) pc caps
move self chars word_b pc caps pos = onward (is_boundary chars pos) pc caps
move self chars not_word_b pc caps pos = onward (not (is_boundary chars pos)) pc caps
move self chars (char c) pc caps pos = hold
move self chars (class r n) pc caps pos = hold
move self chars dot pc caps pos = hold

-- Marks the instruction as seen.
abbrev pub mark : ℕ → Threads → Threads
mark pc t = record t { visited = set t.visited pc true }

-- One round, with `again` for the rounds that follow.
unfoldable pub act :
    (ℕ → Caps → Threads → Option Threads) → Move → ℕ → Caps → Threads → Option Threads
act again (goto pc' caps') pc caps t = again pc' caps' t
act again (fork a b) pc caps t = do t' ← again a caps t; again b caps t'
act again accept pc caps t = some (record t { accepted = some caps })
act again hold pc caps t = some (record t { list = t.list ++ (pc, caps) ∷ [] })
act again stop pc caps t = some t

-- Each round marks an instruction, so the instructions bound the rounds; `none` is their end.
unfoldable pub add : RegexProgram → Text → ℕ → ℕ → ℕ → Caps → Threads → Option Threads
unfolding move act
add self chars pos zero pc caps t = none
add self chars pos (suc rounds) pc caps t = on_some (get_elem? self.insns pc) (some t) λ insn.
    if get_or t.visited pc true
    then some t
    else act (add self chars pos rounds) (move self chars insn pc caps pos) pc caps (mark pc t)

-- the test of a thread's instruction on the character read
unfoldable pub consumes : RegexProgram → Option Insn → ℕ → Bool
unfolding char_eq class_matches dot_matches
consumes self (some (char ch)) c = char_eq c ch self.ignore_case
consumes self (some (class ranges neg)) c = class_matches c ranges neg self.ignore_case
consumes self (some dot) c = dot_matches self c
consumes self _ c = false

abbrev pub add_rounds : RegexProgram → ℕ
add_rounds self = suc (length self.insns)

-- the inner loop: every thread of `clist` on the character `c` at `pos`
unfoldable pub step_all : RegexProgram → Text → ℕ → ℕ → List (ℕ × Caps) → Threads → Option Threads
unfolding add consumes
step_all self chars c pos [] next = some next
step_all self chars c pos ((pc, caps) ∷ clist) next =
    if consumes self (get_elem? self.insns pc) c
    then (do
      next' ← add self chars (pos + 1) (add_rounds self) (pc + 1) caps next
      step_all self chars c pos clist next')
    else step_all self chars c pos clist next

abbrev pub none_visited : RegexProgram → List Bool
none_visited self = replicate (length self.insns) false

abbrev pub fresh : RegexProgram → Option Caps → Threads
fresh self accepted = record { list = []; visited = none_visited self; accepted = accepted }

abbrev pub is_empty {ℓ} : {A : Type ℓ} → List A → Bool
is_empty [] = true
is_empty (_ ∷ _) = false

-- `for pos in start..n`, over the characters from `pos`; it ends early without threads.
unfoldable pub step_text : RegexProgram → Text → ℕ → Text → Threads → Option Threads
unfolding step_all
step_text self chars pos [] t = some t
step_text self chars pos (c ∷ cs) t = do
  next ← step_all self chars c pos t.list (fresh self t.accepted)
  if is_empty next.list then some next else step_text self chars (pos + 1) cs next

-- `matches!(insn, Insn::Match)`
abbrev pub is_match : Option Insn → Bool
is_match (some matched) = true
is_match _ = false

-- the last loop: the first thread of the list that stands at a match
unfoldable pub first_match : RegexProgram → List (ℕ × Caps) → Option Caps → Option Caps
first_match self [] accepted = accepted
first_match self ((pc, caps) ∷ list) accepted =
    if is_match (get_elem? self.insns pc) then some caps else first_match self list accepted

abbrev pub no_caps : RegexProgram → Caps
no_caps self = replicate ((self.num_groups + 1) * 2) none

-- `pike_chars` up to `build_match`: the captures, if any thread matched
unfoldable pub pike_chars : RegexProgram → Text → ℕ → Option (Option Caps)
unfolding add step_text first_match
pike_chars self chars at = do
  first ← add self chars at (add_rounds self) 0 (no_caps self) (fresh self none)
  last ← step_text self chars at (drop at chars) first
  some (first_match self last.list last.accepted)
