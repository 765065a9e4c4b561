-- ===== src/Bytecode/Control/Noted.antt =====
-- crates/js-bytecode/src/compiler.rs: `emit_break` and `emit_continue` against the frames they find.
use mathlib.Core.Option
use mathlib.Core.Option.{some-injective}
use mathlib.Core.Path.{subst}
use justscript.Prelude.{
  ℕ, ◌^◌, ◌<◌, ◌≡◌, refl, sym, ◌↔◌, ◌⊎◌, inl, inr, Bool, true, false, Option, none, some, List, [],
  ◌∷◌, arith, Bool-cases, Option-cases, list_beq_iff, length, All, Text, nat_eq, list_eq,
}
use justscript.Bytecode.Opcode.{Opcode}
use justscript.Bytecode.Function.{BytecodeFunction, emit_placeholder, emit, emit_at, here}
use justscript.Bytecode.Control.{
  LoopFrame, LabelFrame, Control, on_first, has_label, add_break, add_continue, add_label_break,
  note_break, note_continue, continues_here, emit_break, emit_continue, emit_noted,
}
use justscript.Bytecode.Control.Targets.{
  jumped, Carries, BreaksLoop, BreaksLabel, ContinuesLoop, Innermost, at_head, in_tail, Breaks,
  no_break, from_loop, from_label, Continues, no_continue, to_loop,
}

abbrev Finds : {A : Type 0} → (A → Type 0) → (A → A) → List A → Option (List A) → Type 0
Finds Fits change xs none = All (λ x. ¬ Fits x) xs
Finds Fits change xs (some ys) = Innermost Fits change xs ys

consider :
    {A : Type 0}
    → (Fits : A → Type 0) (change : A → A) (x : A) (xs : List A) (o : Option (List A)) → (¬ Fits x)
    → Finds Fits change xs o
    → Finds Fits change (x ∷ xs) (Option.map (λ ys. x ∷ ys) o)
consider Fits change x xs none unfit h = (unfit, h)
consider Fits change x xs (some ys) unfit h = in_tail x unfit h

on_first-Finds :
    {A : Type 0} (Fits : A → Type 0) (test : A → Bool) (change : A → A)
    → ((x : A) → (test x ≡ true) ↔ Fits x)
    → (xs : List A) → Finds Fits change xs (on_first test change xs)
unfolding on_first
on_first-Finds Fits test change agree [] = tt
on_first-Finds Fits test change agree (x ∷ xs) = elim (Bool-cases (test x)) [
  | inl fits ↦ rw fits (at_head x xs ((agree x).0 fits))
  | inr unfit ↦ rw unfit (
      consider Fits change x xs _ (λ h. let fits = (agree x).1 h in absurd (cc))
        (on_first-Finds Fits test change agree xs))
]

has_label_iff :
    (label : Text) (labels : List Text) → (has_label label labels ≡ true) ↔ Carries label labels
unfolding has_label
has_label_iff label [] = (λ e. absurd (cc), λ h. absurd h)
has_label_iff label (candidate ∷ rest) =
    let same = list_beq_iff candidate label in
    let later = has_label_iff label rest in ground (arith, same, later)

continues_here_iff :
    (label : Option Text) (frame : LoopFrame)
    → (continues_here label frame ≡ true) ↔ ContinuesLoop label frame
continues_here_iff none frame = (λ e. e, λ e. e)
continues_here_iff (some label) frame =
    let carried = has_label_iff label frame.labels in ground (arith, carried)

-- What the frames become once a jump at `n` is noted in them, or that no frame fits.
abbrev NotesBreak : Option Text → ℕ → Control → Option Control → Type 0
NotesBreak label n c none =
    All (λ l. ¬ BreaksLoop label l) c.loops × All (λ l. ¬ BreaksLabel label l) c.labels
NotesBreak label n c (some d) =
    ((loops : List LoopFrame) × (d ≡ record c { loops = loops })
      × Innermost (BreaksLoop label) (add_break n) c.loops loops)
    ⊎ ((labels : List LabelFrame) × (d ≡ record c { labels = labels })
        × All (λ l. ¬ BreaksLoop label l) c.loops
        × Innermost (BreaksLabel label) (add_label_break n) c.labels labels)

abbrev NotesContinue : Option Text → ℕ → Control → Option Control → Type 0
NotesContinue label n c none = All (λ l. ¬ ContinuesLoop label l) c.loops
NotesContinue label n c (some d) =
    (loops : List LoopFrame) × (d ≡ record c { loops = loops })
    × Innermost (ContinuesLoop label) (add_continue n) c.loops loops

none_unlabelled : (labels : List LabelFrame) → All (λ l. ¬ BreaksLabel none l) labels
none_unlabelled [] = tt
none_unlabelled (l ∷ rest) = (λ h. h, none_unlabelled rest)

unlabelled-NotesBreak :
    (n : ℕ) (c : Control) (o : Option (List LoopFrame))
    → Finds (BreaksLoop none) (add_break n) c.loops o
    → NotesBreak none n c (Option.map (λ loops. record c { loops = loops }) o)
unlabelled-NotesBreak n c none h = (h, none_unlabelled c.labels)
unlabelled-NotesBreak n c (some loops) h = inl (loops, refl, h)

labelled-NotesBreak :
    (label : Text) (n : ℕ) (c : Control) (o : Option (List LabelFrame))
    → All (λ l. ¬ BreaksLoop (some label) l) c.loops
    → Finds (BreaksLabel (some label)) (add_label_break n) c.labels o
    → NotesBreak (some label) n c (Option.map (λ labels. record c { labels = labels }) o)
labelled-NotesBreak label n c none unfit h = (unfit, h)
labelled-NotesBreak label n c (some labels) unfit h = inr (labels, refl, unfit, h)

note_break-NotesBreak :
    (label : Option Text) (n : ℕ) (c : Control) → NotesBreak label n c (note_break label n c)
unfolding note_break
note_break-NotesBreak none n c = unlabelled-NotesBreak n c _ (
    on_first-Finds (BreaksLoop none) (λ frame. true) (add_break n) (λ x. (λ _. tt, λ _. refl))
      c.loops)
note_break-NotesBreak (some label) n c =
    let in_loops =
      on_first-Finds (BreaksLoop (some label)) (λ frame. has_label label frame.labels) (add_break n)
        (λ l. has_label_iff label l.labels) c.loops in
    let in_labels =
      on_first-Finds (BreaksLabel (some label)) (λ frame. has_label label frame.labels)
        (add_label_break n) (λ l. has_label_iff label l.labels) c.labels in
    elim (Option-cases (on_first (λ frame. has_label label frame.labels) (add_break n) c.loops)) [
      | inl missed ↦
          rw (missed, note_break)
            (labelled-NotesBreak label n c _ (rw missed at in_loops) in_labels)
      | inr (loops, found) ↦ rw (found, note_break) (inl (loops, refl, rw found at in_loops))
    ]

mapped-NotesContinue :
    (label : Option Text) (n : ℕ) (c : Control) (o : Option (List LoopFrame))
    → Finds (ContinuesLoop label) (add_continue n) c.loops o
    → NotesContinue label n c (Option.map (λ loops. record c { loops = loops }) o)
mapped-NotesContinue label n c none h = h
mapped-NotesContinue label n c (some loops) h = (loops, refl, h)

note_continue-NotesContinue :
    (label : Option Text) (n : ℕ) (c : Control) → NotesContinue label n c (note_continue label n c)
unfolding note_continue
note_continue-NotesContinue label n c = mapped-NotesContinue label n c _ (
    on_first-Finds (ContinuesLoop label) (continues_here label) (add_continue n)
      (continues_here_iff label) c.loops)

emit_placeholder_at :
    (op : Opcode) (f : BytecodeFunction)
    → length f.code < 2 ^ 16
    → (emit_placeholder op f).1 ≡ length f.code
unfolding emit_placeholder here
emit_placeholder_at op f h = omega (arith, h)

emit_placeholder_code : (f : BytecodeFunction) → (emit_placeholder Opcode.jump f).0 ≡ jumped f
unfolding emit_placeholder emit emit_at
emit_placeholder_code f = refl

-- What holds of both results of `note` holds of the emission.
pub emit_noted_by :
    (Q : Bool × BytecodeFunction × Control → Type 0) (note : ℕ → Option Control)
    (f : BytecodeFunction) (c : Control)
    → length f.code < 2 ^ 16
    → (note (length f.code) ≡ none → Q (false, f, c))
    → ((d : Control) → note (length f.code) ≡ some d → Q (true, jumped f, d))
    → Q (emit_noted note f c)
emit_noted_by Q note f c small missing there =
    let here_is = emit_placeholder_at Opcode.jump f small in
    elim (Option-cases (note (emit_placeholder Opcode.jump f).1)) [
      | inl missed ↦ rw (missed, emit_noted) (missing (rw here_is at missed))
      | inr (d, found) ↦
          rw (found, emit_placeholder_code f, emit_noted) (there d (rw here_is at found))
    ]

noted-Breaks :
    (label : Option Text) (f : BytecodeFunction) (c d : Control)
    → NotesBreak label (length f.code) c (some d)
    → Breaks label f c (true, jumped f, d)
noted-Breaks label f c d (inl (loops, e, h)) =
    subst (λ d. Breaks label f c (true, jumped f, d)) (sym e) (from_loop loops h)
noted-Breaks label f c d (inr (labels, e, unfit, h)) =
    subst (λ d. Breaks label f c (true, jumped f, d)) (sym e) (from_label labels unfit h)

-- While the code has fewer than 65536 instructions, a `break` does what the frames say.
pub emit_break-Breaks :
    (label : Option Text) (f : BytecodeFunction) (c : Control)
    → length f.code < 2 ^ 16
    → Breaks label f c (emit_break label f c)
unfolding emit_break
emit_break-Breaks label f c small =
    let noted = note_break-NotesBreak label (length f.code) c in
    emit_noted_by (Breaks label f c) (λ at. note_break label at c) f c small
      (λ missed. let (loops, labels) = rw missed at noted in no_break loops labels)
      λ d found. noted-Breaks label f c d (rw found at noted)

-- While the code has fewer than 65536 instructions, a `continue` does what the frames say.
pub emit_continue-Continues :
    (label : Option Text) (f : BytecodeFunction) (c : Control)
    → length f.code < 2 ^ 16
    → Continues label f c (emit_continue label f c)
unfolding emit_continue
emit_continue-Continues label f c small =
    let noted = note_continue-NotesContinue label (length f.code) c in
    emit_noted_by (Continues label f c) (λ at. note_continue label at c) f c small
      (λ missed. no_continue (rw missed at noted))
      λ d found.
        let (loops, e, h) = rw found at noted in
        subst (λ d. Continues label f c (true, jumped f, d)) (sym e) (to_loop loops h)
