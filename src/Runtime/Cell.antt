-- ===== src/Runtime/Cell.antt =====
-- crates/js-runtime/src/value.rs: binding cells. A `Cell` is its address: the number of cells that were
-- there before it. The heap holds the newest cell first, so that what an import points to stands
-- behind it.
pub mod Alias
use mathlib.Core.Option
use justscript.Prelude.{
  ℕ, Bool, true, false, Option, none, some, List, [], ◌∷◌, map, if◌then◌else◌, ◌==◌, length, nat_eq,
  list_eq,
}

pub data BindingError : Type 0 where
  uninitialized immutable : BindingError

pub data BindingCell {ℓ} (V : Type ℓ) : Type ℓ where
  direct : Option V → Bool → BindingCell V
  indirect : ℕ → BindingCell V

pub data Result {ℓ} (A : Type ℓ) : Type ℓ where
  ok : A → Result A
  err : BindingError → Result A

-- The cell in front of the new rest, where the rest did not refuse.
abbrev pub behind {ℓ} : {A : Type ℓ} → A → Result (List A) → Result (List A)
behind cell (ok rest) = ok (cell ∷ rest)
behind cell (err e) = err e

abbrev pub replace {ℓ} : {A : Type ℓ} → List A → Result A → Result (List A)
replace rest (ok cell) = ok (cell ∷ rest)
replace rest (err e) = err e

abbrev pub same_root : Option ℕ → Option ℕ → Bool
same_root (some l) (some r) = l == r
same_root _ _ = false

module _ {ℓ} {V : Type ℓ} where
  -- The address of the new cell and the heap with it.
  abbrev allocate : BindingCell V → List (BindingCell V) → ℕ × List (BindingCell V)
  allocate cell heap = (length heap, cell ∷ heap)

  unfoldable pub initialized : V → Bool → List (BindingCell V) → ℕ × List (BindingCell V)
  initialized value mutable heap = allocate (direct (some value) mutable) heap

  unfoldable pub uninitialized_cell : Bool → List (BindingCell V) → ℕ × List (BindingCell V)
  uninitialized_cell mutable heap = allocate (direct none mutable) heap

  unfoldable pub immutable_import : ℕ → List (BindingCell V) → ℕ × List (BindingCell V)
  immutable_import target heap = allocate (indirect target) heap

  -- `ok_or(BindingError::Uninitialized)`
  abbrev pub read : Option V → Result V
  read none = err uninitialized
  read (some value) = ok value

  -- `none` on an address that no cell has.
  unfoldable pub get : List (BindingCell V) → ℕ → Option (Result V)
  get [] a = none
  get (direct state mutable ∷ rest) a =
      let later = get rest a in if a == length rest then some (read state) else later
  get (indirect target ∷ rest) a = get rest (if a == length rest then target else a)

  abbrev pub write : Option V → Bool → V → Result (BindingCell V)
  write none mutable value = ok (direct (some value) mutable)
  write (some old) true value = ok (direct (some value) true)
  write (some old) false value = err immutable

  unfoldable pub set : List (BindingCell V) → ℕ → V → Option (Result (List (BindingCell V)))
  set [] a value = none
  set (direct state mutable ∷ rest) a value =
      let later = set rest a value in
      if a == length rest
      then some (replace rest (write state mutable value))
      else Option.map (behind (direct state mutable)) later
  set (indirect target ∷ rest) a value =
      let later = set rest a value in
      if a == length rest then some (err immutable) else Option.map (behind (indirect target)) later

  unfoldable pub is_initialized : List (BindingCell V) → ℕ → Option Bool
  is_initialized [] a = none
  is_initialized (direct state mutable ∷ rest) a =
      let later = is_initialized rest a in
      if a == length rest then some (elim state [ none ↦ false | some value ↦ true ]) else later
  is_initialized (indirect target ∷ rest) a =
      is_initialized rest (if a == length rest then target else a)

  -- The direct cell at the end of the chain.
  unfoldable pub root : List (BindingCell V) → ℕ → Option ℕ
  root [] a = none
  root (direct state mutable ∷ rest) a =
      let later = root rest a in if a == length rest then some a else later
  root (indirect target ∷ rest) a = root rest (if a == length rest then target else a)

  -- Both chains are followed to their direct cells, whose pointers are compared.
  unfoldable pub ptr_eq : List (BindingCell V) → ℕ → ℕ → Bool
  unfolding root
  ptr_eq heap left right = same_root (root heap left) (root heap right)
