-- ===== src/Vm/Regex/Pike/Runs.antt =====
-- crates/js-vm/src/regex.rs: the runs of a compiled pattern, with no order and no memory of what was seen.
use justscript.Prelude.{ℕ, ◌+◌, ◌≡◌, true, not, some, get_elem?, set, Text}
use justscript.Vm.Regex.{
  start, end, word_b, not_word_b, jmp, split, save, matched, RegexProgram, Caps,
}
use justscript.Vm.Regex.Chars.{char_at, is_boundary, at_start, at_end}
use justscript.Vm.Regex.Pike.{consumes, no_caps}

-- `Runs self chars origin pc pos caps`: from the first instruction at `origin`, some choice of
-- branches leads to instruction `pc` at position `pos` with these captures.
pub data Runs (self : RegexProgram) (chars : Text) (origin : ℕ) : ℕ → ℕ → Caps → Type 0 where
  begin : Runs self chars origin 0 origin (no_caps self)
  jump :
      {pc pos x : ℕ} {caps : Caps}
      → get_elem? self.insns pc ≡ some (jmp x)
      → Runs self chars origin pc pos caps
      → Runs self chars origin x pos caps
  left :
      {pc pos a b : ℕ} {caps : Caps}
      → get_elem? self.insns pc ≡ some (split a b)
      → Runs self chars origin pc pos caps
      → Runs self chars origin a pos caps
  right :
      {pc pos a b : ℕ} {caps : Caps}
      → get_elem? self.insns pc ≡ some (split a b)
      → Runs self chars origin pc pos caps
      → Runs self chars origin b pos caps
  saved :
      {pc pos slot : ℕ} {caps : Caps}
      → get_elem? self.insns pc ≡ some (save slot)
      → Runs self chars origin pc pos caps
      → Runs self chars origin (pc + 1) pos (set caps slot (some pos))
  started :
      {pc pos : ℕ} {caps : Caps}
      → get_elem? self.insns pc ≡ some start
      → at_start self chars pos ≡ true
      → Runs self chars origin pc pos caps
      → Runs self chars origin (pc + 1) pos caps
  ended :
      {pc pos : ℕ} {caps : Caps}
      → get_elem? self.insns pc ≡ some end
      → at_end self chars pos ≡ true
      → Runs self chars origin pc pos caps
      → Runs self chars origin (pc + 1) pos caps
  bounded :
      {pc pos : ℕ} {caps : Caps}
      → get_elem? self.insns pc ≡ some word_b
      → is_boundary chars pos ≡ true
      → Runs self chars origin pc pos caps
      → Runs self chars origin (pc + 1) pos caps
  unbounded :
      {pc pos : ℕ} {caps : Caps}
      → get_elem? self.insns pc ≡ some not_word_b
      → not (is_boundary chars pos) ≡ true
      → Runs self chars origin pc pos caps
      → Runs self chars origin (pc + 1) pos caps
  read :
      {pc pos c : ℕ} {caps : Caps}
      → char_at chars pos ≡ some c
      → consumes self (get_elem? self.insns pc) c ≡ true
      → Runs self chars origin pc pos caps
      → Runs self chars origin (pc + 1) (pos + 1) caps

-- A run that ends at a match, with the captures that it has then.
pub record Accepts (self : RegexProgram) (chars : Text) (origin : ℕ) (caps : Caps) : Type 0 where
  pub pc : ℕ
  pub pos : ℕ
  pub path : Runs self chars origin pc pos caps
  pub at_match : get_elem? self.insns pc ≡ some matched
