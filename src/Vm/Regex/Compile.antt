-- ===== src/Vm/Regex/Compile.antt =====
-- crates/js-vm/src/regex.rs: patterns to instructions, with the jumps patched when their targets are known.
pub mod Targets
use justscript.Prelude.{ℕ, ◌+◌, ◌*◌, Bool, List, [], ◌∷◌, ◌++◌, if◌then◌else◌, length, set}
use justscript.Vm.Regex
use justscript.Vm.Regex.{Ast, Asts, nil, cons, Insn, jmp, split, save, matched}

-- `Compiler`: the instructions so far; `here` is their number.
abbrev pub Code : Type 0
Code = List Insn

abbrev pub emit : Insn → Code → Code
emit insn code = code ++ insn ∷ []

abbrev pub here : Code → ℕ
here code = length code

-- `for j in jumps { self.insns[j] = Insn::Jmp(end) }`
unfoldable pub patch_jumps : List ℕ → ℕ → Code → Code
patch_jumps [] to code = code
patch_jumps (j ∷ jumps) to code = patch_jumps jumps to (set code j (jmp to))

-- `Insn::Split` with the preferred branch first
abbrev pub split_on : Bool → ℕ → ℕ → Insn
split_on greedy inside outside = if greedy then split inside outside else split outside inside

unfoldable mutual
  unfolding patch_jumps

  pub compile : Ast → Code → Code
  compile Ast.empty code = code
  compile (Ast.char c) code = emit (Insn.char c) code
  compile Ast.dot code = emit Insn.dot code
  compile (Ast.class r n) code = emit (Insn.class r n) code
  compile Ast.start code = emit Insn.start code
  compile Ast.end code = emit Insn.end code
  compile Ast.word_boundary code = emit Insn.word_b code
  compile Ast.not_word_boundary code = emit Insn.not_word_b code
  compile (Ast.concat parts) code = compile_parts parts code
  compile (Ast.alt alts) code = compile_alts alts [] code
  compile (Ast.star body greedy) code =
      let inner = compile body (emit (split 0 0) code) in
      let looped = emit (jmp (here code)) inner in
      set looped (here code) (split_on greedy (here code + 1) (here looped))
  compile (Ast.plus body greedy) code =
      let inner = compile body code in
      let ended = emit (split 0 0) inner in
      set ended (here inner) (split_on greedy (here code) (here ended))
  compile (Ast.quest body greedy) code =
      let inner = compile body (emit (split 0 0) code) in
      set inner (here code) (split_on greedy (here code + 1) (here inner))
  compile (Ast.group body n) code =
      emit (save (2 * n + 1)) (compile body (emit (save (2 * n)) code))
  compile (Ast.look _ _ _) code = code
  compile (Ast.backref _) code = code

  pub compile_parts : Asts → Code → Code
  compile_parts nil code = code
  compile_parts (cons part parts) code = compile_parts parts (compile part code)

  -- `jumps` are the ends of the alternatives so far; the last alternative has neither split nor jump.
  pub compile_alts : Asts → List ℕ → Code → Code
  compile_alts nil jumps code = patch_jumps jumps (here code) code
  compile_alts (cons a nil) jumps code =
      let inner = compile a code in patch_jumps jumps (here inner) inner
  compile_alts (cons a (cons b alts)) jumps code =
      let inner = compile a (emit (split 0 0) code) in
      let jumped = emit (jmp 0) inner in
      let branched = set jumped (here code) (split (here code + 1) (here jumped)) in
      compile_alts (cons b alts) (jumps ++ here inner ∷ []) branched

-- the instructions of a whole pattern
unfoldable pub compile_program : Ast → Code
unfolding compile
compile_program ast = emit matched (emit (save 1) (compile ast (emit (save 0) [])))
