-- ===== src/Bytecode/Local/Slots.antt =====
-- crates/js-bytecode/src/local.rs: slots are in range, stable and not shared by interned names.
use justscript.Prelude.{
  ℕ, ◌+◌, ◌^◌, ◌≤◌, ◌<◌, ◌≡◌, inl, inr, none, some, arith, if◌then◌else◌, Option-cases, ◌==◌,
  list_beq_iff, lookup, lookup-insert, Text, u16, nat_eq, list_eq,
}
use justscript.Bytecode.Local.{LocalTable, new, get, intern, bind_parameter, slot_count}

-- Parameters come first, and every name leads to a slot of the frame.
pub record IsTable (t : LocalTable) : Type 0 where
  pub params_first : t.param_count ≤ t.count
  pub in_range : (name : Text) (slot : ℕ) → get name t ≡ some slot → slot < t.count

pub new-IsTable : (param_count : ℕ) → IsTable (new param_count)
unfolding new get lookup
new-IsTable n = record { params_first = omega arith; in_range = λ name slot e. absurd (cc) }

module _ (name : Text) (t : LocalTable) where
  intern_old : {slot : ℕ} → get name t ≡ some slot → intern name t ≡ (t, slot)
  unfolding get intern
  intern_old e = ground arith

  intern_new :
      get name t ≡ none
      → ((intern name t).1 ≡ t.count)
        × ((intern name t).0.count ≡ u16 (t.count + 1))
        × ((intern name t).0.param_count ≡ t.param_count)
  unfolding get intern
  intern_new e = ground arith

  -- Interning a name leads the name to the slot that the call returns, and every other name to
  -- where it led before.
  pub get-intern :
      (other : Text)
      → get other (intern name t).0
        ≡ (if name == other then some (intern name t).1 else get other t)
  unfolding get intern
  get-intern other =
      ground (arith, lookup-insert name other t.count t.by_name, list_beq_iff name other)

  -- A name keeps its slot: interning it again returns the same slot and changes nothing.
  pub intern-intern : intern name (intern name t).0 ≡ ((intern name t).0, (intern name t).1)
  unfolding intern
  intern-intern = ground (arith, lookup-insert name name t.count t.by_name, list_beq_iff name name)

  -- While fewer than 65535 slots of a well-formed table are in use, interning a name keeps the
  -- table well formed, returns a slot inside the frame, and never shrinks the frame.
  pub intern-IsTable :
      t.count + 1 < 2 ^ 16
      → IsTable t
      → IsTable (intern name t).0
        × ((intern name t).1 < slot_count (intern name t).0)
        × (slot_count t ≤ slot_count (intern name t).0)
  intern-IsTable h v = elim (Option-cases (get name t)) [
    | inl fresh ↦
        let (slot, count, params) = intern_new fresh in
        (
          record {
            params_first = omega arith;
            in_range = λ other i e. ground (arith, get-intern other, v.in_range other i);
          },
          omega arith,
          omega arith,
        )
    | inr (i, e) ↦ rw (intern_old e) (v, v.in_range name i e, omega arith)
  ]

-- Two names with one slot are one name.
abbrev pub IsInjective : LocalTable → Type 0
IsInjective t = (a b : Text) (slot : ℕ) → get a t ≡ some slot → get b t ≡ some slot → a ≡ b

-- In a well-formed table in which no two names share a slot, no two names share one behind an
-- interning either.
intern-IsInjective :
    (name : Text) (t : LocalTable) → IsTable t → IsInjective t → IsInjective (intern name t).0
intern-IsInjective name t v inj = elim (Option-cases (get name t)) [
  | inr (i, e) ↦ rw (intern_old name t e) inj
  | inl fresh ↦ λ a b slot. ground (
    arith,
    intern_new name t fresh,
    get-intern name t a,
    get-intern name t b,
    list_beq_iff name a,
    list_beq_iff name b,
    inj a b slot,
    v.in_range a slot,
    v.in_range b slot,
  )
]

-- A bound parameter has its own slot and no other name loses its slot.
pub get-bind_parameter :
    (name : Text) (slot : ℕ) (t : LocalTable) (other : Text)
    → get other (bind_parameter name slot t) ≡ (if name == other then some slot else get other t)
unfolding get bind_parameter
get-bind_parameter name slot t other = lookup-insert name other slot t.by_name
