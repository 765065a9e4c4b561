-- ===== src/Prelude/Maps.antt =====
-- `HashMap` as an association list: `insert` replaces, and no operation of the model depends on
-- the order of the entries.
use mathlib.Core.Path.{◌≡◌, refl, sym}
use mathlib.Core.Logic.{◌⊎◌, inl, inr}
use mathlib.Core.Option.{Option, none, some, some-injective}
use mathlib.Core.List.{List, [], ◌∷◌}
use native.Mathlib.Omega.{arith}
use justscript.Prelude.Tests.{PartialEq, Bool-cases, ◌==◌, if◌then◌else◌}

abbrev pub Map {ℓ κ} : Type ℓ → Type κ → Type (ℓ ⊔ κ)
Map K V = List (K × V)

module _ {ℓ κ} {K : Type ℓ} {V : Type κ} ⦃e : PartialEq K⦄ where
  unfoldable pub lookup : K → Map K V → Option V
  lookup key [] = none
  lookup key ((found, value) ∷ rest) = if found == key then some value else lookup key rest

  unfoldable pub insert : K → V → Map K V → Map K V
  insert key value [] = (key, value) ∷ []
  insert key value (entry ∷ rest) =
      if entry.0 == key then (key, value) ∷ rest else entry ∷ insert key value rest

  pub lookup-insert :
      (key other : K) (value : V) (rest : Map K V)
      → lookup other (insert key value rest)
        ≡ (if key == other then some value else lookup other rest)
  unfolding lookup insert
  lookup-insert key other value [] = refl
  lookup-insert key other value (entry ∷ rest) = ground (
    arith,
    e.is_eq_iff key other,
    e.is_eq_iff entry.0 key,
    e.is_eq_iff entry.0 other,
    lookup-insert key other value rest,
  )

  -- What a lookup behind an insertion finds is old, or is what was inserted.
  pub lookup-insert_cases :
      (k j : K) (v w : V) (m : Map K V)
      → lookup j (insert k v m) ≡ some w
      → (lookup j m ≡ some w) ⊎ ((k ≡ j) × (w ≡ v))
  lookup-insert_cases k j v w m h = elim (Bool-cases (k == j)) [
    | inl same ↦
        inr ((e.is_eq_iff k j).0 same, sym (some-injective _ _ (rw (lookup-insert, same) at h)))
    | inr ne ↦ inl (rw (lookup-insert, ne) at h)
  ]
