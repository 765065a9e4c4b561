-- ===== src/Bytecode/Local.antt =====
-- crates/js-bytecode/src/local.rs: the slots of the named locals of one function.
pub mod Slots
use justscript.Prelude.{
  ℕ, ◌+◌, Option, none, some, [], Map, lookup, insert, Text, u16, nat_eq, list_eq,
}

pub record LocalTable : Type 0 where
  pub by_name : Map Text ℕ
  pub count : ℕ
  pub param_count : ℕ

unfoldable pub new : ℕ → LocalTable
new param_count = record { by_name = []; count = param_count; param_count = param_count }

unfoldable pub get : Text → LocalTable → Option ℕ
get name t = lookup name t.by_name

-- The table behind the call and the slot that it returns. `count` wraps as a release build does.
unfoldable pub intern : Text → LocalTable → LocalTable × ℕ
intern name t = elim (lookup name t.by_name) [
  | some i ↦ (t, i)
  | none ↦
      (record t { by_name = insert name t.count t.by_name; count = u16 (t.count + 1) }, t.count)
]

-- A later parameter of the same name replaces the earlier one.
unfoldable pub bind_parameter : Text → ℕ → LocalTable → LocalTable
bind_parameter name slot t = record t { by_name = insert name slot t.by_name }

abbrev pub slot_count : LocalTable → ℕ
slot_count t = t.count
