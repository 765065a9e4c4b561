-- ===== src/Bytecode/Control.antt =====
-- crates/js-bytecode/src/compiler.rs: the frames of enclosing loops, switches and labelled statements,
-- the innermost first, with the jumps that wait for their target.
pub mod Targets
pub mod Noted
pub mod Pending
pub mod Patched
mod Tests
use mathlib.Core.Option
use justscript.Prelude.{
  ℕ, Bool, true, false, ◌&&◌, ◌||◌, Option, none, some, List, [], ◌∷◌, ◌++◌, map, if◌then◌else◌,
  ◌==◌, Text, nat_eq, list_eq,
}
use justscript.Bytecode.Opcode.{Opcode}
use justscript.Bytecode.Function.{BytecodeFunction, emit_placeholder, patch}

pub record LoopFrame : Type 0 where
  pub breaks : List ℕ
  pub continues : List ℕ
  pub labels : List Text
  pub is_iteration : Bool

pub record LabelFrame : Type 0 where
  pub labels : List Text
  pub breaks : List ℕ

-- The fields `loops` and `labels` of `CompilerCtx`.
pub record Control : Type 0 where
  pub loops : List LoopFrame
  pub labels : List LabelFrame

unfoldable pub push_loop : List Text → Bool → Control → Control
push_loop labels is_iteration c = record c {
  loops =
      record { breaks = []; continues = []; labels = labels; is_iteration = is_iteration }
      ∷ c.loops;
}

-- `for at in …: patch(func, at, target)`
unfoldable pub patch_all : List ℕ → ℕ → BytecodeFunction → Option BytecodeFunction
unfolding patch
patch_all [] target f = some f
patch_all (at ∷ rest) target f = elim (patch at target f) [
  | none ↦ none
  | some g ↦ patch_all rest target g
]

-- A frame's breaks go to `break_target`, its continues to `continue_target`. `none` is a panic.
unfoldable pub pop_loop : ℕ → ℕ → BytecodeFunction → Control → Option (BytecodeFunction × Control)
unfolding patch_all
pop_loop break_target continue_target f c = elim c.loops [
  | [] ↦ some (f, c)
  | frame ∷ rest ↦ elim (patch_all frame.breaks break_target f) [
    | none ↦ none
    | some g ↦
        Option.map (λ h. (h, record c { loops = rest }))
          (patch_all frame.continues continue_target g)
  ]
]

unfoldable pub push_label : List Text → Control → Control
push_label labels c = record c { labels = record { labels = labels; breaks = [] } ∷ c.labels }

unfoldable pub pop_label : ℕ → BytecodeFunction → Control → Option (BytecodeFunction × Control)
unfolding patch_all
pop_label break_target f c = elim c.labels [
  | [] ↦ some (f, c)
  | frame ∷ rest ↦
      Option.map (λ g. (g, record c { labels = rest })) (patch_all frame.breaks break_target f)
]

-- `iter_mut().rev().find(…)` and what is done to the frame that is found.
unfoldable pub on_first {ℓ} : {A : Type ℓ} → (A → Bool) → (A → A) → List A → Option (List A)
on_first test change [] = none
on_first test change (x ∷ xs) =
    let rest = on_first test change xs in
    if test x then some (change x ∷ xs) else Option.map (λ ys. x ∷ ys) rest

unfoldable pub has_label : Text → List Text → Bool
has_label label [] = false
has_label label (candidate ∷ rest) = candidate == label || has_label label rest

abbrev pub add_break : ℕ → LoopFrame → LoopFrame
add_break at frame = record frame { breaks = frame.breaks ++ at ∷ [] }

abbrev pub add_continue : ℕ → LoopFrame → LoopFrame
add_continue at frame = record frame { continues = frame.continues ++ at ∷ [] }

abbrev pub add_label_break : ℕ → LabelFrame → LabelFrame
add_label_break at frame = record frame { breaks = frame.breaks ++ at ∷ [] }

-- The frame that a `break` leaves, with the jump at `at` noted in it.
unfoldable pub note_break : Option Text → ℕ → Control → Option Control
unfolding on_first has_label
note_break (some label) at c =
    elim (on_first (λ frame. has_label label frame.labels) (add_break at) c.loops) [
      | some loops ↦ some (record c { loops = loops })
      | none ↦
          Option.map (λ labels. record c { labels = labels })
            (on_first (λ frame. has_label label frame.labels) (add_label_break at) c.labels)
    ]
note_break none at c =
    Option.map (λ loops. record c { loops = loops })
      (on_first (λ frame. true) (add_break at) c.loops)

abbrev pub continues_here : Option Text → LoopFrame → Bool
continues_here (some label) frame = frame.is_iteration && has_label label frame.labels
continues_here none frame = frame.is_iteration

unfoldable pub note_continue : Option Text → ℕ → Control → Option Control
unfolding on_first has_label
note_continue label at c =
    Option.map (λ loops. record c { loops = loops })
      (on_first (continues_here label) (add_continue at) c.loops)

-- The jump is emitted only if there is a frame for it.
abbrev pub emit_noted :
    (ℕ → Option Control) → BytecodeFunction → Control → Bool × BytecodeFunction × Control
emit_noted note f c =
    let (g, at) = emit_placeholder Opcode.jump f in
    elim (note at) [ none ↦ (false, f, c) | some d ↦ (true, g, d) ]

unfoldable pub emit_break :
    Option Text → BytecodeFunction → Control → Bool × BytecodeFunction × Control
unfolding note_break emit_placeholder
emit_break label f c = emit_noted (λ at. note_break label at c) f c

unfoldable pub emit_continue :
    Option Text → BytecodeFunction → Control → Bool × BytecodeFunction × Control
unfolding note_continue emit_placeholder
emit_continue label f c = emit_noted (λ at. note_continue label at c) f c
