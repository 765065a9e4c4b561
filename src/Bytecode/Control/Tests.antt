-- ===== src/Bytecode/Control/Tests.antt =====
-- Runs of the control frames of crates/js-bytecode/src/compiler.rs on one loop.
use justscript.Prelude.{
  ℕ, ◌^◌, ◌<◌, ◌≡◌, refl, true, none, some, [], ◌∷◌, arith, length, get_elem?, codes,
}
use justscript.Syntax.Source.{dummy}
use justscript.Bytecode.Opcode.{Opcode, Instruction}
use justscript.Bytecode.Function
use justscript.Bytecode.Function.{BytecodeFunction}
use justscript.Bytecode.Control.{Control, LoopFrame, pop_loop, emit_break, emit_continue}
use justscript.Bytecode.Control.Targets.{Breaks, Continues}
use justscript.Bytecode.Control.Pending.{
  IsPending, KeepsPending, emit_break-IsPending, emit_continue-IsPending,
}
use justscript.Bytecode.Control.Patched.{retarget, pop_loop_lem}

abbrev code : BytecodeFunction
code = Function.emit_jump Opcode.jump 0 (Function.new dummy (codes "f") 0)

-- A loop with the label `a`, and in it one whose break waits at instruction 0.
abbrev inner : LoopFrame
inner = record { breaks = 0 ∷ []; continues = []; labels = []; is_iteration = true }

abbrev outer : LoopFrame
outer = record { breaks = []; continues = []; labels = codes "a" ∷ []; is_iteration = true }

abbrev control : Control
control = record { loops = inner ∷ outer ∷ []; labels = [] }

code-length : length code.code ≡ 1
unfolding Function.emit_jump Function.new
code-length = refl

control-IsPending : IsPending (length code.code) control
control-IsPending =
    rw code-length (record { loops_in = (((omega arith, tt), tt), ((tt, tt), tt)); labels_in = tt })

small : length code.code < 2 ^ 16
small = omega (arith, code-length)

emit_break-IsPending_example :
    Breaks (some (codes "a")) code control (emit_break (some (codes "a")) code control)
    × KeepsPending (emit_break (some (codes "a")) code control)
emit_break-IsPending_example =
    emit_break-IsPending (some (codes "a")) code control small control-IsPending

emit_continue-IsPending_example :
    Continues none code control (emit_continue none code control)
    × KeepsPending (emit_continue none code control)
emit_continue-IsPending_example = emit_continue-IsPending none code control small control-IsPending

pop_loop_lem_example :
    (g : BytecodeFunction) × (pop_loop 7 5 code control
      ≡ some (g, record control { loops = outer ∷ [] }))
    × (length g.code ≡ length code.code)
    × ((i : ℕ) (ins : Instruction)
        → get_elem? code.code i ≡ some ins
        → get_elem? g.code i ≡ some (retarget inner.continues 5 i (retarget inner.breaks 7 i ins)))
pop_loop_lem_example = pop_loop_lem 7 5 code control inner (outer ∷ []) refl control-IsPending
