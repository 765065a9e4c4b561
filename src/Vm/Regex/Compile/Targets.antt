-- ===== src/Vm/Regex/Compile/Targets.antt =====
-- crates/js-vm/src/regex.rs: where the compiled jumps lead and which slots are saved.
use justscript.Prelude.{
  ℕ, zero, suc, ◌+◌, ◌-◌, ◌*◌, ◌≤◌, ◌<◌, ◌≡◌, refl, Bool, true, false, List, [], ◌∷◌, ◌++◌, arith,
  length, set, All, length-append, length-set,
}
use justscript.Vm.Regex.{Ast, Asts, nil, cons, Insn, jmp, split, save, matched}
use justscript.Vm.Regex.Compile.{
  Code, emit, here, patch_jumps, split_on, compile, compile_parts, compile_alts, compile_program,
}

-- A jump stays within `bound`, a slot within the slots of `groups` groups and the whole match.
abbrev pub InRange : ℕ → ℕ → Insn → Type 0
InRange groups bound (jmp x) = x ≤ bound
InRange groups bound (split a b) = (a ≤ bound) × (b ≤ bound)
InRange groups bound (save slot) = slot < (groups + 1) * 2
InRange groups bound _ = Unit

-- No group of the pattern has a number above `groups`.
unfoldable mutual
  pub GroupsAtMost : ℕ → Ast → Type 0
  GroupsAtMost groups (Ast.group x n) = (n ≤ groups) × GroupsAtMost groups x
  GroupsAtMost groups (Ast.concat xs) = AllGroupsAtMost groups xs
  GroupsAtMost groups (Ast.alt xs) = AllGroupsAtMost groups xs
  GroupsAtMost groups (Ast.star x _) = GroupsAtMost groups x
  GroupsAtMost groups (Ast.plus x _) = GroupsAtMost groups x
  GroupsAtMost groups (Ast.quest x _) = GroupsAtMost groups x
  GroupsAtMost groups (Ast.look x _ _) = GroupsAtMost groups x
  GroupsAtMost groups _ = Unit

  pub AllGroupsAtMost : ℕ → Asts → Type 0
  AllGroupsAtMost groups nil = Unit
  AllGroupsAtMost groups (cons x xs) = GroupsAtMost groups x × AllGroupsAtMost groups xs

module _ (P : Insn → Type 0) where
  All-emit : (insn : Insn) (code : Code) → All P code → P insn → All P (emit insn code)
  All-emit insn [] h k = (k, tt)
  All-emit insn (x ∷ code) h k = (h.0, All-emit insn code h.1 k)

  All-set : (code : Code) (i : ℕ) (insn : Insn) → All P code → P insn → All P (set code i insn)
  All-set [] i insn h k = tt
  All-set (x ∷ code) zero insn h k = (k, h.1)
  All-set (x ∷ code) (suc i) insn h k = (h.0, All-set code i insn h.1 k)

module _ (groups : ℕ) where
  -- Code that is in range as far as it goes.
  abbrev Sound : Code → Type 0
  Sound code = All (InRange groups (here code)) code

  InRange-weaken : (m n : ℕ) (insn : Insn) → m ≤ n → InRange groups m insn → InRange groups n insn
  InRange-weaken m n (jmp x) h k = omega arith
  InRange-weaken m n (split a b) h k = (omega arith, omega arith)
  InRange-weaken m n (save slot) h k = k
  InRange-weaken m n _ h k = tt

  All-weaken :
      (m n : ℕ) (code : Code) → m ≤ n → All (InRange groups m) code → All (InRange groups n) code
  All-weaken m n [] h k = tt
  All-weaken m n (x ∷ code) h k = (InRange-weaken m n x h k.0, All-weaken m n code h k.1)

  emit-Sound :
      (insn : Insn) (code : Code)
      → InRange groups (here code + 1) insn
      → Sound code
      → Sound (emit insn code)
  emit-Sound insn code h k =
      let grown = length-append code (insn ∷ []) in
      All-emit (InRange groups _) insn code (All-weaken (here code) _ code (omega arith) k)
        (InRange-weaken (here code + 1) _ insn (omega arith) h)

  set-Sound :
      (code : Code) (i : ℕ) (insn : Insn)
      → InRange groups (here code) insn
      → Sound code
      → Sound (set code i insn)
  set-Sound code i insn h k =
      let same = length-set code i insn in
      All-set (InRange groups _) code i insn (All-weaken (here code) _ code (omega arith) k)
        (InRange-weaken (here code) _ insn (omega arith) h)

  patch_jumps-Sound :
      (jumps : List ℕ) (to : ℕ) (code : Code)
      → to ≤ here code
      → Sound code
      → Sound (patch_jumps jumps to code) × (here (patch_jumps jumps to code) ≡ here code)
  unfolding patch_jumps
  patch_jumps-Sound [] to code h k = (k, refl)
  patch_jumps-Sound (j ∷ jumps) to code h k =
      let same = length-set code j (jmp to) in
      let (all, e) =
        patch_jumps-Sound jumps to (set code j (jmp to)) (omega arith)
          (set-Sound code j (jmp to) h k) in
      (all, omega arith)

  split_on-InRange :
      (greedy : Bool) (a b bound : ℕ)
      → a ≤ bound
      → b ≤ bound
      → InRange groups bound (split_on greedy a b)
  split_on-InRange true a b bound h k = (h, k)
  split_on-InRange false a b bound h k = (k, h)

  -- Code in range has grown into code in range.
  abbrev Extends : Code → Code → Type 0
  Extends code code' = Sound code' × (here code ≤ here code')

  emit-Extends :
      (insn : Insn) (code code' : Code)
      → InRange groups (here code' + 1) insn
      → Extends code code'
      → Extends code (emit insn code')
  emit-Extends insn code code' h (k, le) =
      let grown = length-append code' (insn ∷ []) in (emit-Sound insn code' h k, omega arith)

  set-Extends :
      (code code' : Code) (i : ℕ) (insn : Insn)
      → InRange groups (here code') insn
      → Extends code code'
      → Extends code (set code' i insn)
  set-Extends code code' i insn h (k, le) =
      let same = length-set code' i insn in (set-Sound code' i insn h k, omega arith)

  here-emit : (insn : Insn) (code : Code) → here (emit insn code) ≡ here code + 1
  here-emit insn code = length-append code (insn ∷ [])

  abbrev Compiles : (Code → Code) → Type 0
  Compiles f = (code : Code) → Sound code → Extends code (f code)

  -- The body of a loop or an option, between a split that is patched and what follows.
  inner-Extends :
      (f : Code → Code) (insn : Insn) (code : Code)
      → Compiles f
      → InRange groups (here code + 1) insn
      → Sound code
      → Sound (f (emit insn code)) × (here code + 1 ≤ here (f (emit insn code)))
  inner-Extends f insn code h k s =
      let grown = here-emit insn code in
      let (all, le) = h (emit insn code) (emit-Sound insn code k s) in (all, omega arith)

  mutual
    unfolding compile GroupsAtMost

    compile-Extends : (a : Ast) → GroupsAtMost groups a → Compiles (compile a)
    compile-Extends Ast.empty g code s = (s, omega arith)
    compile-Extends (Ast.char c) g code s = emit-Extends _ code code tt (s, omega arith)
    compile-Extends Ast.dot g code s = emit-Extends _ code code tt (s, omega arith)
    compile-Extends (Ast.class r n) g code s = emit-Extends _ code code tt (s, omega arith)
    compile-Extends Ast.start g code s = emit-Extends _ code code tt (s, omega arith)
    compile-Extends Ast.end g code s = emit-Extends _ code code tt (s, omega arith)
    compile-Extends Ast.word_boundary g code s = emit-Extends _ code code tt (s, omega arith)
    compile-Extends Ast.not_word_boundary g code s = emit-Extends _ code code tt (s, omega arith)
    compile-Extends (Ast.concat parts) g code s = compile_parts-Extends parts g code s
    compile-Extends (Ast.alt alts) g code s = compile_alts-Extends alts g [] code s
    compile-Extends (Ast.star body greedy) g code s =
        let (all, le) =
          inner-Extends (compile body) (split 0 0) code (compile-Extends body g)
            (omega arith, omega arith) s in
        let inner = compile body (emit (split 0 0) code) in
        let grown = here-emit (jmp (here code)) inner in
        set-Extends code _ (here code) _ (split_on-InRange greedy _ _ _ (omega arith) (omega arith))
          (emit-Extends (jmp (here code)) code inner (omega arith) (all, omega arith))
    compile-Extends (Ast.plus body greedy) g code s =
        let (all, le) = compile-Extends body g code s in
        let grown = here-emit (split 0 0) (compile body code) in
        set-Extends code _ (here (compile body code)) _
          (split_on-InRange greedy _ _ _ (omega arith) (omega arith))
          (emit-Extends (split 0 0) code (compile body code) (omega arith, omega arith) (all, le))
    compile-Extends (Ast.quest body greedy) g code s =
        let (all, le) =
          inner-Extends (compile body) (split 0 0) code (compile-Extends body g)
            (omega arith, omega arith) s in
        set-Extends code _ (here code) _ (split_on-InRange greedy _ _ _ (omega arith) (omega arith))
          (all, omega arith)
    compile-Extends (Ast.group body n) g code s =
        let (all, le) =
          inner-Extends (compile body) (save (2 * n)) code (compile-Extends body g.1)
            (omega (arith, g.0)) s in
        emit-Extends (save (2 * n + 1)) code _ (omega (arith, g.0)) (all, omega arith)
    compile-Extends (Ast.look _ _ _) g code s = (s, omega arith)
    compile-Extends (Ast.backref _) g code s = (s, omega arith)

    compile_parts-Extends :
        (parts : Asts) → AllGroupsAtMost groups parts → Compiles (compile_parts parts)
    compile_parts-Extends nil g code s = (s, omega arith)
    compile_parts-Extends (cons part parts) g code s =
        let (one, le) = compile-Extends part g.0 code s in
        let (all, le') = compile_parts-Extends parts g.1 (compile part code) one in
        (all, omega arith)

    compile_alts-Extends :
        (alts : Asts)
        → AllGroupsAtMost groups alts
        → (jumps : List ℕ) → Compiles (compile_alts alts jumps)
    compile_alts-Extends nil g jumps code s =
        let (all, e) = patch_jumps-Sound jumps (here code) code (omega arith) s in
        (all, omega arith)
    compile_alts-Extends (cons a nil) g jumps code s =
        let (one, le) = compile-Extends a g.0 code s in
        let (all, e) =
          patch_jumps-Sound jumps (here (compile a code)) (compile a code) (omega arith) one in
        (all, omega arith)
    compile_alts-Extends (cons a (cons b alts)) g jumps code s =
        let (one, le) =
          inner-Extends (compile a) (split 0 0) code (compile-Extends a g.0)
            (omega arith, omega arith) s in
        let inner = compile a (emit (split 0 0) code) in
        let grown = here-emit (jmp 0) inner in
        let (branched, le') =
          set-Extends code (emit (jmp 0) inner) (here code)
            (split (here code + 1) (here (emit (jmp 0) inner))) (omega arith, omega arith)
            (emit-Extends (jmp 0) code inner (omega arith) (one, omega arith)) in
        let (all, le'') =
          compile_alts-Extends (cons b alts) g.1 (jumps ++ here inner ∷ []) _ branched in
        (all, omega arith)

  -- In the code of a whole pattern every jump leads to an instruction of it and every saved slot is
  -- one of the captures, when no group of the pattern has a number above `groups`.
  pub compile_program-InRange :
      (a : Ast)
      → GroupsAtMost groups a
      → All (InRange groups (length (compile_program a) - 1)) (compile_program a)
  unfolding compile_program
  compile_program-InRange a g =
      let first = emit-Sound (save 0) [] (omega arith) tt in
      let (all, le) = compile-Extends a g (emit (save 0) []) first in
      let body = compile a (emit (save 0) []) in
      let saved = here-emit (save 1) body in
      let ended = here-emit matched (emit (save 1) body) in
      All-emit (InRange groups _) matched (emit (save 1) body)
        (All-emit (InRange groups _) (save 1) body (All-weaken (here body) _ body (omega arith) all)
          (omega arith))
        tt
