-- ===== src/Bytecode/Control/Pending.antt =====
-- crates/js-bytecode/src/compiler.rs: the jumps that wait in the frames stand in the code.
use mathlib.Core.Option
use mathlib.Core.Option.{some-injective}
use mathlib.Core.Path.{subst}
use justscript.Prelude.{
  ℕ, ◌+◌, ◌^◌, ◌<◌, ◌≡◌, refl, inl, inr, Bool, true, Option, none, some, List, [], ◌∷◌, ◌++◌, arith,
  Bool-cases, Option-cases, length, All, length-append, Text,
}
use justscript.Bytecode.Opcode.{Opcode, bare}
use justscript.Bytecode.Function.{BytecodeFunction}
use justscript.Bytecode.Control.Targets.{jumped, Breaks, Continues}
use justscript.Bytecode.Control.Noted.{emit_noted_by, emit_break-Breaks, emit_continue-Continues}
use justscript.Bytecode.Control.{
  LoopFrame, LabelFrame, Control, on_first, has_label, add_break, add_continue, add_label_break,
  note_break, note_continue, continues_here, emit_break, emit_continue, emit_noted,
}

-- Addresses in code of `n` instructions.
abbrev pub AllIn : ℕ → List ℕ → Type 0
AllIn n ats = All (λ at. at < n) ats

-- Every waiting jump stands in code of `n` instructions.
pub record IsPending (n : ℕ) (c : Control) : Type 0 where
  pub loops_in : All (λ l. AllIn n l.breaks × AllIn n l.continues) c.loops
  pub labels_in : All (λ l. AllIn n l.breaks) c.labels

All-weaken : (n : ℕ) (ats : List ℕ) → AllIn n ats → AllIn (n + 1) ats
All-weaken n [] h = tt
All-weaken n (at ∷ rest) (lt, h) = (omega arith, All-weaken n rest h)

All-note : (n : ℕ) (ats : List ℕ) → AllIn n ats → AllIn (n + 1) (ats ++ n ∷ [])
All-note n [] h = (omega arith, tt)
All-note n (at ∷ rest) (lt, h) = (omega arith, All-note n rest h)

All-map {ℓ} :
    {A : Type ℓ} (P Q : A → Type 0) (xs : List A) → ((x : A) → P x → Q x) → All P xs → All Q xs
All-map P Q [] k h = tt
All-map P Q (x ∷ xs) k (p, h) = (k x p, All-map P Q xs k h)

-- Changing the first fitting element keeps a predicate that the change establishes and that all
-- the others are weakened to.
on_first-All {ℓ} :
    {A : Type ℓ} (P Q : A → Type 0) (test : A → Bool) (change : A → A) (xs ys : List A)
    → ((x : A) → P x → Q x)
    → ((x : A) → P x → Q (change x))
    → All P xs
    → on_first test change xs ≡ some ys
    → All Q ys
unfolding on_first
on_first-All P Q test change [] ys weaken put h e = absurd (cc)
on_first-All P Q test change (x ∷ xs) ys weaken put (p, h) e = elim (Bool-cases (test x)) [
  | inl t ↦ subst (All Q) (some-injective _ _ (rw t at e)) (put x p, All-map P Q xs weaken h)
  | inr t ↦ elim (Option-cases (on_first test change xs)) [
    | inl n ↦ let lost = rw (t, n) at e in absurd (cc)
    | inr (zs, z) ↦
        subst (All Q) (some-injective _ _ (rw (t, z) at e))
          (weaken x p, on_first-All P Q test change xs zs weaken put h z)
  ]
]

abbrev LoopIn : ℕ → LoopFrame → Type 0
LoopIn n l = AllIn n l.breaks × AllIn n l.continues

LoopIn-weaken : (n : ℕ) (l : LoopFrame) → LoopIn n l → LoopIn (n + 1) l
LoopIn-weaken n l (b, k) = (All-weaken n l.breaks b, All-weaken n l.continues k)

LoopIn-add_break : (n : ℕ) (l : LoopFrame) → LoopIn n l → LoopIn (n + 1) (add_break n l)
LoopIn-add_break n l (b, k) = (All-note n l.breaks b, All-weaken n l.continues k)

LoopIn-add_continue : (n : ℕ) (l : LoopFrame) → LoopIn n l → LoopIn (n + 1) (add_continue n l)
LoopIn-add_continue n l (b, k) = (All-weaken n l.breaks b, All-note n l.continues k)

on_first-LoopIn :
    (n : ℕ) (test : LoopFrame → Bool) (change : LoopFrame → LoopFrame) (xs ys : List LoopFrame)
    → ((x : LoopFrame) → LoopIn n x → LoopIn (n + 1) (change x))
    → All (LoopIn n) xs
    → on_first test change xs ≡ some ys
    → All (LoopIn (n + 1)) ys
on_first-LoopIn n test change xs ys put =
    on_first-All (LoopIn n) (LoopIn (n + 1)) test change xs ys (LoopIn-weaken n) put

labels-weaken :
    (n : ℕ) (xs : List LabelFrame)
    → All (λ l. AllIn n l.breaks) xs
    → All (λ l. AllIn (n + 1) l.breaks) xs
labels-weaken n xs =
    All-map (λ l. AllIn n l.breaks) (λ l. AllIn (n + 1) l.breaks) xs
      (λ l h. All-weaken n l.breaks h)

note_continue-IsPending :
    (label : Option Text) (n : ℕ) (c d : Control)
    → IsPending n c
    → note_continue label n c ≡ some d
    → IsPending (n + 1) d
unfolding note_continue
note_continue-IsPending label n c d v e =
    elim (Option-cases (on_first (continues_here label) (add_continue n) c.loops)) [
      | inl none' ↦ let lost = rw none' at e in absurd (cc)
      | inr (ls, found) ↦ subst (IsPending (n + 1)) (some-injective _ _ (rw found at e)) (record {
        loops_in =
            on_first-LoopIn n (continues_here label) (add_continue n) c.loops ls
              (LoopIn-add_continue n) v.loops_in found;
        labels_in = labels-weaken n c.labels v.labels_in;
      })
    ]

note_break_label :
    (label : Text) (n : ℕ) (c : Control)
    → on_first (λ frame. has_label label frame.labels) (add_break n) c.loops ≡ none
    → note_break (some label) n c
      ≡ Option.map
          (λ labels. record c { labels = labels })
          (on_first (λ frame. has_label label frame.labels) (add_label_break n) c.labels)
unfolding note_break
note_break_label label n c missed = rw (missed, note_break) refl

note_break-IsPending :
    (label : Option Text) (n : ℕ) (c d : Control)
    → IsPending n c
    → note_break label n c ≡ some d
    → IsPending (n + 1) d
unfolding note_break
note_break-IsPending none n c d v e =
    elim (Option-cases (on_first (λ frame. true) (add_break n) c.loops)) [
      | inl none' ↦ let lost = rw none' at e in absurd (cc)
      | inr (ls, found) ↦ subst (IsPending (n + 1)) (some-injective _ _ (rw found at e)) (record {
        loops_in =
            on_first-LoopIn n (λ frame. true) (add_break n) c.loops ls (LoopIn-add_break n)
              v.loops_in found;
        labels_in = labels-weaken n c.labels v.labels_in;
      })
    ]
note_break-IsPending (some label) n c d v e =
    elim (Option-cases (on_first (λ frame. has_label label frame.labels) (add_break n) c.loops)) [
      | inr (ls, found) ↦
          subst (IsPending (n + 1)) (some-injective _ _ (rw (found, note_break) at e)) (record {
            loops_in =
                on_first-LoopIn n (λ frame. has_label label frame.labels) (add_break n) c.loops ls
                  (LoopIn-add_break n) v.loops_in found;
            labels_in = labels-weaken n c.labels v.labels_in;
          })
      | inl missed ↦
          elim (Option-cases
            (on_first (λ frame. has_label label frame.labels) (add_label_break n) c.labels)) [
              | inl none' ↦
                  let lost = rw (note_break_label label n c missed, none') at e in absurd (cc)
              | inr (ls, found) ↦
                  subst (IsPending (n + 1))
                    (some-injective _ _ (rw (note_break_label label n c missed, found) at e))
                    (record {
                      loops_in =
                          All-map (LoopIn n) (LoopIn (n + 1)) c.loops (LoopIn-weaken n) v.loops_in;
                      labels_in =
                          on_first-All (λ l. AllIn n l.breaks) (λ l. AllIn (n + 1) l.breaks)
                            (λ frame. has_label label frame.labels) (add_label_break n) c.labels ls
                            (λ l h. All-weaken n l.breaks h) (λ l h. All-note n l.breaks h)
                            v.labels_in found;
                    })
            ]
    ]

length-jumped : (f : BytecodeFunction) → length (jumped f).code ≡ length f.code + 1
length-jumped f = length-append f.code (bare Opcode.jump ∷ [])

-- A `note` that keeps the waiting jumps in the code.
abbrev Keeps : (ℕ → Control → Option Control) → Type 0
Keeps note = (n : ℕ) (c d : Control) → IsPending n c → note n c ≡ some d → IsPending (n + 1) d

-- The waiting jumps of the frames stand in the code that comes with them.
abbrev pub KeepsPending : Bool × BytecodeFunction × Control → Type 0
KeepsPending (found, f, c) = IsPending (length f.code) c

emit_noted-KeepsPending :
    (note : ℕ → Control → Option Control) (f : BytecodeFunction) (c : Control)
    → Keeps note
    → length f.code < 2 ^ 16
    → IsPending (length f.code) c
    → KeepsPending (emit_noted (λ at. note at c) f c)
emit_noted-KeepsPending note f c keeps small v =
    emit_noted_by KeepsPending (λ at. note at c) f c small (λ _. v)
      λ d found. rw (length-jumped f) (keeps (length f.code) c d v found)

-- While the code has fewer than 65536 instructions and every waiting jump stands in it, a `break`
-- appends a jump and notes its address in the innermost frame that it leaves: without a label the
-- innermost loop or switch, with a label the innermost loop or switch with the label or else the
-- innermost labelled statement with it. It reports success exactly if there is such a frame, and
-- otherwise changes nothing. Every waiting jump stands in the code behind it.
pub emit_break-IsPending :
    (label : Option Text) (f : BytecodeFunction) (c : Control)
    → length f.code < 2 ^ 16
    → IsPending (length f.code) c
    → Breaks label f c (emit_break label f c) × KeepsPending (emit_break label f c)
unfolding emit_break
emit_break-IsPending label f c small v = (
  emit_break-Breaks label f c small,
  emit_noted-KeepsPending (note_break label) f c (note_break-IsPending label) small v,
)

-- While the code has fewer than 65536 instructions and every waiting jump stands in it, a `continue`
-- appends a jump and notes its address in the innermost iteration statement, with a label the
-- innermost one that has it. It reports success exactly if there is such a frame, and otherwise
-- changes nothing. Every waiting jump stands in the code behind it.
pub emit_continue-IsPending :
    (label : Option Text) (f : BytecodeFunction) (c : Control)
    → length f.code < 2 ^ 16
    → IsPending (length f.code) c
    → Continues label f c (emit_continue label f c) × KeepsPending (emit_continue label f c)
unfolding emit_continue
emit_continue-IsPending label f c small v = (
  emit_continue-Continues label f c small,
  emit_noted-KeepsPending (note_continue label) f c (note_continue-IsPending label) small v,
)
