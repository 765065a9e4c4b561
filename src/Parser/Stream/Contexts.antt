-- ===== src/Parser/Stream/Contexts.antt =====
-- crates/js-parser/src/token_stream.rs: the stack of function contexts, as the parser moves in and out
-- of function bodies.
use justscript.Prelude.{◌<◌, ◌≡◌, refl, ◌∙◌, Bool, true, List, [], ◌∷◌, arith, length}
use justscript.Parser.Stream.{
  FnCtx, ParserTokenStream, current_ctx, in_function, push_ctx, enter_fn, enter_strict_fn, pop_ctx,
  pop_stack, top_ctx,
}

-- One move of the parser: an inherited context, a function, a class member, or the way back.
pub data Step : ParserTokenStream → ParserTokenStream → Type 0 where
  inherit : {s : ParserTokenStream} → Step s (push_ctx (current_ctx s) s)
  function : {s : ParserTokenStream} → (a g : Bool) → Step s (enter_fn a g s)
  member : {s : ParserTokenStream} → (a g : Bool) → Step s (enter_strict_fn a g s)
  leave : {s : ParserTokenStream} → Step s (pop_ctx s)

pub data Steps : ParserTokenStream → ParserTokenStream → Type 0 where
  done : {s : ParserTokenStream} → Steps s s
  next : {s t u : ParserTokenStream} → Step s t → Steps t u → Steps s u

-- A context above a strict one is strict.
abbrev pub IsNested : List FnCtx → Type 0
IsNested [] = ⊥
IsNested (c ∷ []) = Unit
IsNested (c ∷ d ∷ rest) = (d.is_strict ≡ true → c.is_strict ≡ true) × IsNested (d ∷ rest)

push-IsNested :
    (c : FnCtx) (stack : List FnCtx)
    → IsNested stack
    → ((top_ctx stack).is_strict ≡ true → c.is_strict ≡ true)
    → IsNested (c ∷ stack)
push-IsNested c [] h k = absurd h
push-IsNested c (d ∷ rest) h k = (k, h)

pop_stack-IsNested : (stack : List FnCtx) → IsNested stack → IsNested (pop_stack stack)
pop_stack-IsNested [] h = h
pop_stack-IsNested (c ∷ []) h = h
pop_stack-IsNested (c ∷ d ∷ rest) h = h.1

Step-IsNested : {s t : ParserTokenStream} → Step s t → IsNested s.ctx_stack → IsNested t.ctx_stack
unfolding push_ctx current_ctx enter_fn enter_strict_fn pop_ctx
Step-IsNested (inherit {s}) h = push-IsNested (top_ctx s.ctx_stack) s.ctx_stack h (λ e. e)
Step-IsNested (function {s} a g) h =
    push-IsNested
      (record { is_async = a; is_generator = g; is_strict = (top_ctx s.ctx_stack).is_strict })
      s.ctx_stack h (λ e. e)
Step-IsNested (member {s} a g) h =
    push-IsNested (record { is_async = a; is_generator = g; is_strict = true }) s.ctx_stack h
      (λ e. refl)
Step-IsNested (leave {s}) h = pop_stack-IsNested s.ctx_stack h

Step-place : {s t : ParserTokenStream} → Step s t → (t.tokens ≡ s.tokens) × (t.pos ≡ s.pos)
unfolding push_ctx enter_fn enter_strict_fn pop_ctx
Step-place (inherit) = (refl, refl)
Step-place (function a g) = (refl, refl)
Step-place (member a g) = (refl, refl)
Step-place leave = (refl, refl)

-- From a stream whose context stack is not empty and in which a context above a strict one is
-- strict, every sequence of moves leads to such a stream, and changes neither tokens nor position.
pub Steps-IsNested :
    {s t : ParserTokenStream}
    → Steps s t
    → IsNested s.ctx_stack
    → IsNested t.ctx_stack × (t.tokens ≡ s.tokens) × (t.pos ≡ s.pos)
Steps-IsNested done h = (h, refl, refl)
Steps-IsNested (next x xs) h =
    let (k, a, b) = Steps-IsNested xs (Step-IsNested x h) in
    (k, a ∙ (Step-place x).0, b ∙ (Step-place x).1)

-- A function entered anywhere is strict if the code around it is, and a class member is strict.
-- Behind either the parser is inside a function, and a function's async and generator marks are its own.
pub enter_fn-current_ctx :
    (a g : Bool) (s : ParserTokenStream)
    → 0 < length s.ctx_stack
    → (current_ctx (enter_fn a g s)
        ≡ record { is_async = a; is_generator = g; is_strict = (current_ctx s).is_strict })
      × (current_ctx (enter_strict_fn a g s)
          ≡ record { is_async = a; is_generator = g; is_strict = true })
      × (in_function (enter_fn a g s) ≡ true)
      × (in_function (enter_strict_fn a g s) ≡ true)
unfolding enter_fn enter_strict_fn current_ctx push_ctx in_function
enter_fn-current_ctx a g s h = (refl, refl, ground (arith, h), ground (arith, h))
