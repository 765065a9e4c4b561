-- ===== src/Bytecode/Control/Targets.antt =====
-- crates/js-bytecode/src/compiler.rs: which frame a `break` or a `continue` leaves, and what it emits.
use justscript.Prelude.{
  ◌≡◌, ◌⊎◌, Bool, true, false, Option, none, some, List, [], ◌∷◌, ◌++◌, length, All, Text,
}
use justscript.Syntax.Source.{dummy}
use justscript.Bytecode.Opcode.{Opcode, bare}
use justscript.Bytecode.Function.{BytecodeFunction}
use justscript.Bytecode.Control.{
  LoopFrame, LabelFrame, Control, add_break, add_continue, add_label_break,
}

-- The function with a jump behind its code.
abbrev pub jumped : BytecodeFunction → BytecodeFunction
jumped f = record f {
  code = f.code ++ bare Opcode.jump ∷ [];
  source_map = f.source_map ++ dummy ∷ [];
}

-- One of the labels is `label`.
abbrev pub Carries : Text → List Text → Type 0
Carries label [] = ⊥
Carries label (candidate ∷ rest) = (candidate ≡ label) ⊎ Carries label rest

-- An unlabelled `break` leaves any loop or switch, a labelled one a loop with the label.
abbrev pub BreaksLoop : Option Text → LoopFrame → Type 0
BreaksLoop none frame = Unit
BreaksLoop (some label) frame = Carries label frame.labels

-- Only a labelled `break` leaves a labelled statement.
abbrev pub BreaksLabel : Option Text → LabelFrame → Type 0
BreaksLabel none frame = ⊥
BreaksLabel (some label) frame = Carries label frame.labels

-- A `continue` goes on with an iteration statement, a labelled one with one that has the label.
abbrev pub ContinuesLoop : Option Text → LoopFrame → Type 0
ContinuesLoop none frame = frame.is_iteration ≡ true
ContinuesLoop (some label) frame = (frame.is_iteration ≡ true) × Carries label frame.labels

-- The innermost element that fits is changed, and no other.
pub data Innermost {ℓ} {A : Type ℓ} (Fits : A → Type 0) (change : A → A)
    : List A → List A → Type ℓ where
  at_head : (x : A) (xs : List A) → Fits x → Innermost Fits change (x ∷ xs) (change x ∷ xs)
  in_tail :
      {xs ys : List A}
      → (x : A) → (¬ Fits x)
      → Innermost Fits change xs ys
      → Innermost Fits change (x ∷ xs) (x ∷ ys)

-- What a `break` makes of the code and of the frames: with no frame to leave, nothing; otherwise a
-- jump behind the code, whose address the innermost loop to leave gets, or the innermost labelled
-- statement if there is no such loop.
pub data Breaks (label : Option Text) (f : BytecodeFunction) (c : Control)
    : Bool × BytecodeFunction × Control → Type 0 where
  no_break :
      All (λ l. ¬ BreaksLoop label l) c.loops
      → All (λ l. ¬ BreaksLabel label l) c.labels
      → Breaks label f c (false, f, c)
  from_loop :
      (loops : List LoopFrame)
      → Innermost (BreaksLoop label) (add_break (length f.code)) c.loops loops
      → Breaks label f c (true, jumped f, record c { loops = loops })
  from_label :
      (labels : List LabelFrame)
      → All (λ l. ¬ BreaksLoop label l) c.loops
      → Innermost (BreaksLabel label) (add_label_break (length f.code)) c.labels labels
      → Breaks label f c (true, jumped f, record c { labels = labels })

-- The same for a `continue`, which only a loop can take.
pub data Continues (label : Option Text) (f : BytecodeFunction) (c : Control)
    : Bool × BytecodeFunction × Control → Type 0 where
  no_continue : All (λ l. ¬ ContinuesLoop label l) c.loops → Continues label f c (false, f, c)
  to_loop :
      (loops : List LoopFrame)
      → Innermost (ContinuesLoop label) (add_continue (length f.code)) c.loops loops
      → Continues label f c (true, jumped f, record c { loops = loops })
