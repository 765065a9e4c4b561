-- ===== src/Bytecode/Function/Patch.antt =====
-- crates/js-bytecode/src/compiler.rs: forward jumps by placeholder and patch.
use justscript.Prelude.{
  ℕ, ◌^◌, ◌≤◌, ◌<◌, ◌≡◌, refl, ◌∙◌, ◌≢◌, some, [], ◌∷◌, ◌++◌, arith, length, get_elem?, set,
  length-append, length-set, get_elem?-set_self, get_elem?-set_ne, get_elem?-append_length,
  set-append_length, get_elem?-some_lt, get_elem?_lt,
}
use justscript.Syntax.Source.{dummy}
use justscript.Bytecode.Opcode.{Opcode, Instruction}
use justscript.Bytecode.Function.{BytecodeFunction, emit, here, emit_placeholder, patch}

abbrev instruction : Opcode → ℕ → Instruction
instruction op operand = record { op = op; operand = operand }

-- Patching an instruction that is there makes the target its operand and keeps its opcode. The
-- other instructions, the length of the code and the source map stay.
pub patch_lem :
    (at target : ℕ) (f : BytecodeFunction) (ins : Instruction)
    → get_elem? f.code at ≡ some ins
    → (g : BytecodeFunction) × (patch at target f ≡ some g)
      × (get_elem? g.code at ≡ some (record ins { operand = target }))
      × ((i : ℕ) → at ≢ i → get_elem? g.code i ≡ get_elem? f.code i)
      × (length g.code ≡ length f.code)
      × (g.source_map ≡ f.source_map)
unfolding patch
patch_lem at target f ins e = (
  record f { code = set f.code at (record ins { operand = target }) },
  rw (e, patch),
  get_elem?-set_self f.code at _ (get_elem?-some_lt f.code at e),
  λ i ne. get_elem?-set_ne f.code at i _ ne,
  length-set f.code at _,
  refl,
)

here_lem : (f : BytecodeFunction) → length f.code < 2 ^ 16 → here f ≡ length f.code
unfolding here
here_lem f h = omega arith

-- While the code has fewer than 65536 instructions, emitting a placeholder and patching it gives
-- the code with a jump to the target behind it.
pub patch-emit_placeholder :
    (op : Opcode) (target : ℕ) (f : BytecodeFunction)
    → length f.code < 2 ^ 16
    → (g : BytecodeFunction) × (patch (emit_placeholder op f).1 target (emit_placeholder op f).0
        ≡ some g)
      × (g.code ≡ f.code ++ instruction op target ∷ [])
unfolding patch emit_placeholder emit
patch-emit_placeholder op target f h = (
  record f { code = f.code ++ instruction op target ∷ []; source_map = f.source_map ++ dummy ∷ [] },
  rw (here_lem f h, get_elem?-append_length f.code (instruction op 0) [], patch)
      (rw (here_lem f h)
        (rw (set-append_length f.code (instruction op 0) [] (instruction op target)))),
  refl,
)

-- From 65536 instructions on, patching a new placeholder at the address that its emission returned
-- succeeds and leaves the placeholder with the operand 0.
pub patch-emit_placeholder_wraps :
    (op : Opcode) (target : ℕ) (f : BytecodeFunction)
    → 2 ^ 16 ≤ length f.code
    → (g : BytecodeFunction) × (patch (emit_placeholder op f).1 target (emit_placeholder op f).0
        ≡ some g)
      × (get_elem? g.code (length f.code) ≡ some (instruction op 0))
unfolding emit_placeholder here emit
patch-emit_placeholder_wraps op target f h =
    let (grown, at) = emit_placeholder op f in
    let (ins, found) =
      get_elem?_lt grown.code at (omega (arith, length-append f.code (instruction op 0 ∷ []))) in
    let (g, done, _, kept, _, _) = patch_lem at target grown ins found in
    (
      g,
      done,
      kept (length f.code) (omega arith) ∙ get_elem?-append_length f.code (instruction op 0) [],
    )
