-- ===== src/Bytecode/Control/Patched.antt =====
-- crates/js-bytecode/src/compiler.rs: leaving a loop patches the jumps that wait in its frame.
use mathlib.Core.Option.{some-injective}
use justscript.Prelude.{
  ℕ, ◌≡◌, refl, sym, ap, ◌∙◌, ◌≢◌, inl, inr, Bool, true, false, ◌||◌, some, List, [], ◌∷◌, map,
  arith, nat_beq, if◌then◌else◌, nat_beq_iff, Bool-cases, length, get_elem?, get_elem?_lt, nat_eq,
  list_eq,
}
use justscript.Bytecode.Opcode.{Instruction}
use justscript.Bytecode.Function.{BytecodeFunction}
use justscript.Bytecode.Function.Patch.{patch_lem}
use justscript.Bytecode.Control.Pending.{AllIn, IsPending}
use justscript.Bytecode.Control.{LoopFrame, LabelFrame, Control, patch_all, pop_loop, pop_label}

-- Whether `i` is one of the addresses.
abbrev pub contains : ℕ → List ℕ → Bool
contains i [] = false
contains i (at ∷ rest) = nat_beq at i || contains i rest

-- An instruction whose operand becomes `target` if it is among the addresses.
abbrev pub retarget : List ℕ → ℕ → ℕ → Instruction → Instruction
retarget ats target i ins = record ins { operand = if contains i ats then target else ins.operand }

refuted : {b : Bool} → b ≡ true → b ≡ false → ⊥
refuted e f = absurd (cc)

abbrev patched_at : ℕ → ℕ → ℕ → Instruction → Instruction
patched_at at target i ins = record ins { operand = if nat_beq at i then target else ins.operand }

if-or :
    (b c : Bool) (target old : ℕ)
    → (if c then target else if b then target else old) ≡ (if b || c then target else old)
if-or b c target old = ground arith

retarget-patched_at :
    (at : ℕ) (rest : List ℕ) (target i : ℕ) (ins : Instruction)
    → retarget rest target i (patched_at at target i ins) ≡ retarget (at ∷ rest) target i ins
retarget-patched_at at rest target i ins =
    rw (if-or (nat_beq at i) (contains i rest) target ins.operand) refl

patched_self :
    (at target i : ℕ) (f g : BytecodeFunction) (old ins : Instruction)
    → get_elem? f.code at ≡ some old
    → get_elem? g.code at ≡ some (record old { operand = target })
    → ((j : ℕ) → at ≢ j → get_elem? g.code j ≡ get_elem? f.code j)
    → get_elem? f.code i ≡ some ins
    → get_elem? g.code i ≡ some (patched_at at target i ins)
patched_self at target i f g old ins e self others found = elim (Bool-cases (nat_beq at i)) [
  | inl same ↦
      let at≡i : at ≡ i = (nat_beq_iff at i).0 same in
      let old≡ins : old ≡ ins = some-injective _ _ (sym e ∙ ap (get_elem? f.code) at≡i ∙ found) in
      rw (same, sym at≡i, self, old≡ins) refl
  | inr ne ↦ rw (ne, others i (λ q. absurd (refuted ((nat_beq_iff at i).1 q) ne)), found) refl
]

patch_all_lem :
    (ats : List ℕ) (target : ℕ) (f : BytecodeFunction)
    → AllIn (length f.code) ats
    → (g : BytecodeFunction) × (patch_all ats target f ≡ some g)
      × (length g.code ≡ length f.code)
      × ((i : ℕ) (ins : Instruction)
          → get_elem? f.code i ≡ some ins
          → get_elem? g.code i ≡ some (retarget ats target i ins))
unfolding patch_all
patch_all_lem [] target f h = (f, refl, refl, (λ i ins e. e))
patch_all_lem (at ∷ rest) target f (lt, h) =
    let (old, e) = get_elem?_lt f.code at lt in
    let (g, p, self, others, len, map) = patch_lem at target f old e in
    let (k, q, len', keeps) = patch_all_lem rest target g (rw len h) in
    (
      k,
      rw (p, patch_all) q,
      len' ∙ len,
      (λ i ins found.
          keeps i (patched_at at target i ins)
            (patched_self at target i f g old ins e self others found)
          ∙ ap some (retarget-patched_at at rest target i ins)),
    )

pop_loop_frame :
    (bt ct : ℕ) (f g h : BytecodeFunction) (c : Control) (frame : LoopFrame) (rest : List LoopFrame)
    → c.loops ≡ frame ∷ rest
    → patch_all frame.breaks bt f ≡ some g
    → patch_all frame.continues ct g ≡ some h
    → pop_loop bt ct f c ≡ some (h, record c { loops = rest })
unfolding pop_loop
pop_loop_frame bt ct f g h c frame rest e p q = rw (e, pop_loop, p, q) refl

-- When the waiting jumps stand in the code, leaving a loop succeeds and drops its frame. Each
-- instruction keeps its opcode; a continue of the frame now leads to the continue target, another
-- break of it to the break target, and every other operand stays.
pub pop_loop_lem :
    (break_target continue_target : ℕ) (f : BytecodeFunction) (c : Control) (frame : LoopFrame)
    (rest : List LoopFrame)
    → c.loops ≡ frame ∷ rest
    → IsPending (length f.code) c
    → (g : BytecodeFunction) × (pop_loop break_target continue_target f c
        ≡ some (g, record c { loops = rest }))
      × (length g.code ≡ length f.code)
      × ((i : ℕ) (ins : Instruction)
          → get_elem? f.code i ≡ some ins
          → get_elem? g.code i
            ≡ some (
                retarget frame.continues continue_target i
                  (retarget frame.breaks break_target i ins)))
pop_loop_lem bt ct f c frame rest e v =
    let inside = rw e at v.loops_in in
    let (g, p, len, keeps) = patch_all_lem frame.breaks bt f inside.0.0 in
    let (h, q, len', keeps') = patch_all_lem frame.continues ct g (rw len inside.0.1) in
    (
      h,
      pop_loop_frame bt ct f g h c frame rest e p q,
      len' ∙ len,
      (λ i ins found. keeps' i (retarget frame.breaks bt i ins) (keeps i ins found)),
    )

-- The same for a labelled statement, whose frame holds breaks alone.
pub pop_label_lem :
    (break_target : ℕ) (f : BytecodeFunction) (c : Control) (frame : LabelFrame)
    (rest : List LabelFrame)
    → c.labels ≡ frame ∷ rest
    → IsPending (length f.code) c
    → (g : BytecodeFunction) × (pop_label break_target f c ≡ some (g, record c { labels = rest }))
      × (length g.code ≡ length f.code)
      × ((i : ℕ) (ins : Instruction)
          → get_elem? f.code i ≡ some ins
          → get_elem? g.code i ≡ some (retarget frame.breaks break_target i ins))
unfolding pop_label
pop_label_lem bt f c frame rest e v =
    let inside = rw e at v.labels_in in
    let (g, p, len, keeps) = patch_all_lem frame.breaks bt f inside.0 in
    (g, rw (e, pop_label, p) refl, len, keeps)
