-- ===== src/Bytecode/Function/Emit.antt =====
-- crates/js-bytecode/src/module.rs: code and source map grow together.
use justscript.Prelude.{
  ℕ, zero, suc, ◌≤◌, ◌<◌, ◌≡◌, refl, ap, ◌&&◌, some, List, [], ◌∷◌, arith, leb, if◌then◌else◌,
  length, get_elem?, get_or, length-append, get_elem?-append_length, get_or-append_length,
}
use justscript.Syntax.Source.{Span, is_dummy}
use justscript.Bytecode.Opcode.{Instruction}
use justscript.Bytecode.Function.{
  BytecodeFunction, emit_at, annotate_spans, annotate_since, source_span,
}

-- Every instruction has one span.
abbrev pub IsAligned : BytecodeFunction → Type 0
IsAligned f = length f.code ≡ length f.source_map

-- An instruction is appended with its span, in step with the source map.
pub emit_at_lem :
    (ins : Instruction) (span : Span) (f : BytecodeFunction)
    → IsAligned f
    → IsAligned (emit_at ins span f)
      × (get_elem? (emit_at ins span f).code (length f.code) ≡ some ins)
      × (source_span (length f.code) (emit_at ins span f) ≡ span)
unfolding emit_at source_span
emit_at_lem ins span f h = (
  omega (arith, length-append f.code (ins ∷ []), length-append f.source_map (span ∷ [])),
  get_elem?-append_length f.code ins [],
  rw h (get_or-append_length f.source_map span [] f.span),
)

length-annotate_spans :
    (start : ℕ) (span : Span) (spans : List Span)
    → length (annotate_spans start span spans) ≡ length spans
unfolding annotate_spans
length-annotate_spans start span [] = refl
length-annotate_spans zero span (m ∷ rest) = ap suc (length-annotate_spans zero span rest)
length-annotate_spans (suc start) span (m ∷ rest) = ap suc (length-annotate_spans start span rest)

-- What the annotation makes of the span of instruction `pc`.
abbrev pub annotated : ℕ → Span → ℕ → Span → Span
annotated start span pc mapped = if leb start pc && is_dummy mapped then span else mapped

get_or-annotate_spans :
    (start : ℕ) (span : Span) (spans : List Span) (pc : ℕ) (d : Span)
    → pc < length spans
    → get_or (annotate_spans start span spans) pc d ≡ annotated start span pc (get_or spans pc d)
unfolding annotate_spans
get_or-annotate_spans start span [] pc d h = elim h [ ]
get_or-annotate_spans zero span (m ∷ rest) zero d h = refl
get_or-annotate_spans zero span (m ∷ rest) (suc pc) d h =
    ground (arith, get_or-annotate_spans zero span rest pc d)
get_or-annotate_spans (suc start) span (m ∷ rest) zero d h = ground arith
get_or-annotate_spans (suc start) span (m ∷ rest) (suc pc) d h =
    ground (arith, get_or-annotate_spans start span rest pc d)

-- On a function whose code and source map are in step, annotating from a start inside the code
-- succeeds and changes no instruction. It keeps both in step, gives the span to the instructions
-- from the start on that had none, and keeps every other span.
pub annotate_since_lem :
    (start : ℕ) (span : Span) (f : BytecodeFunction)
    → IsAligned f
    → start ≤ length f.code
    → (g : BytecodeFunction) × (annotate_since start span f ≡ some g)
      × (g.code ≡ f.code)
      × IsAligned g
      × ((pc : ℕ)
          → pc < length f.code
          → source_span pc g ≡ annotated start span pc (source_span pc f))
unfolding annotate_since source_span
annotate_since_lem start span f h k = (
  record f { source_map = annotate_spans start span f.source_map },
  ground arith,
  refl,
  omega (arith, length-annotate_spans start span f.source_map),
  λ pc l. get_or-annotate_spans start span f.source_map pc f.span (omega arith),
)
