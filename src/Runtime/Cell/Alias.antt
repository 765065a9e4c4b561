-- ===== src/Runtime/Cell/Alias.antt =====
-- crates/js-runtime/src/value.rs: writing to a cell is seen through every import of it, and nowhere else.
use mathlib.Core.Option
use mathlib.Core.Option.{some-injective}
use justscript.Runtime.Cell.{
  BindingCell, direct, indirect, Result, ok, err, get, set, root, write, replace, behind,
}
use justscript.Prelude.{
  ℕ, suc, ◌<◌, ◌≡◌, refl, sym, ap, ◌≢◌, ◌⊎◌, inl, inr, Bool, true, false, Option, none, some, List,
  [], ◌∷◌, arith, if◌then◌else◌, Bool-cases, ◌==◌, length, nat_eq, list_eq,
}

same_number : (a b n : ℕ) → (a == n) ≡ true → (b == n) ≡ true → b ≡ a
same_number a b n top here' = ground arith

not_same : (a b n : ℕ) → (a == n) ≡ false → (b == n) ≡ true → some b ≡ some a → ⊥
not_same a b n below here' e = absurd (ground (arith, some-injective _ _ e))

module _ {ℓ} {V : Type ℓ} where
  root-lt : (heap : List (BindingCell V)) (a r : ℕ) → root heap a ≡ some r → r < length heap
  unfolding root
  root-lt [] a r e = absurd (cc)
  root-lt (direct state mutable ∷ rest) a r e = elim (Bool-cases (a == length rest)) [
    | inl top ↦ ground (arith, some-injective _ _ (rw top at e))
    | inr below ↦ omega (arith, root-lt rest a r (rw below at e))
  ]
  root-lt (indirect target ∷ rest) a r e =
      omega (arith, root-lt rest (if a == length rest then target else a) r e)

  map-behind :
      (c : BindingCell V) (o : Option (Result (List (BindingCell V))))
      (heap' : List (BindingCell V))
      → Option.map (behind c) o ≡ some (ok heap')
      → (rest' : List (BindingCell V)) × (o ≡ some (ok rest')) × (heap' ≡ c ∷ rest')
  map-behind c none heap' e = absurd (cc)
  map-behind c (some (ok r)) heap' e = (r, refl, sym (cc))
  map-behind c (some (err x)) heap' e = absurd (cc)

  replace-write :
      (state : Option V) (m : Bool) (value : V) (rest heap' : List (BindingCell V))
      → some (replace rest (write state m value)) ≡ some (ok heap')
      → heap' ≡ direct (some value) m ∷ rest
  replace-write none m value rest heap' e = sym (cc)
  replace-write (some old) true value rest heap' e = sym (cc)
  replace-write (some old) false value rest heap' e = absurd (cc)

  set-direct :
      (state : Option V) (m : Bool) (rest : List (BindingCell V)) (a : ℕ) (value : V)
      (heap' : List (BindingCell V))
      → set (direct state m ∷ rest) a value ≡ some (ok heap')
      → (((a == length rest) ≡ true) × (heap' ≡ direct (some value) m ∷ rest))
        ⊎ (((a == length rest) ≡ false)
            × (rest' : List (BindingCell V)) × (set rest a value ≡ some (ok rest'))
            × (heap' ≡ direct state m ∷ rest'))
  unfolding set
  set-direct state m rest a value heap' e = elim (Bool-cases (a == length rest)) [
    | inl top ↦ inl (top, replace-write state m value rest heap' (rw top at e))
    | inr below ↦
        let (rest', e', same) =
          map-behind (direct state m) (set rest a value) heap' (rw below at e) in
        inr (below, rest', e', same)
  ]

  set-indirect :
      (target : ℕ) (rest : List (BindingCell V)) (a : ℕ) (value : V) (heap' : List (BindingCell V))
      → set (indirect target ∷ rest) a value ≡ some (ok heap')
      → (rest' : List (BindingCell V)) × (set rest a value ≡ some (ok rest'))
        × (heap' ≡ indirect target ∷ rest')
  unfolding set
  set-indirect target rest a value heap' e = elim (Bool-cases (a == length rest)) [
    | inl top ↦ let lost = rw top at e in absurd (cc)
    | inr below ↦ map-behind (indirect target) (set rest a value) heap' (rw below at e)
  ]

  -- What the cell `b` shows in `heap'`: the value if it leads to `a`, and what it showed if not.
  abbrev pub Shows : List (BindingCell V) → List (BindingCell V) → ℕ → V → ℕ → Type ℓ
  Shows heap heap' a value b =
      ((root heap b ≡ some a) × (get heap' b ≡ some (ok value)))
      ⊎ ((root heap b ≢ some a) × (get heap' b ≡ get heap b))

  show-indirect :
      (target : ℕ) (rest rest' : List (BindingCell V)) (a : ℕ) (value : V) (b : ℕ)
      → length rest' ≡ length rest
      → Shows rest rest' a value (if b == length rest then target else b)
      → Shows (indirect target ∷ rest) (indirect target ∷ rest') a value b
  unfolding root get
  show-indirect target rest rest' a value b len shows = rw len shows

  too_old :
      (a b : ℕ) (rest : List (BindingCell V)) → (a == length rest) ≡ true → root rest b ≡ some a → ⊥
  too_old a b rest top e = absurd (ground (arith, root-lt rest b a e))

  show-newest :
      (state : Option V) (m : Bool) (rest : List (BindingCell V)) (a : ℕ) (value : V) (b : ℕ)
      → (a == length rest) ≡ true
      → Shows (direct state m ∷ rest) (direct (some value) m ∷ rest) a value b
  unfolding root get
  show-newest state m rest a value b top = elim (Bool-cases (b == length rest)) [
    | inl here' ↦ inl (rw here' (ap some (same_number a b (length rest) top here')), rw here' refl)
    | inr older ↦
        inr ((λ e. absurd (too_old a b rest top (rw (older, root) at e))), rw (older, get) refl)
  ]

  show-older :
      (state : Option V) (m : Bool) (rest rest' : List (BindingCell V)) (a : ℕ) (value : V) (b : ℕ)
      → length rest' ≡ length rest
      → (a == length rest) ≡ false
      → Shows rest rest' a value b
      → Shows (direct state m ∷ rest) (direct state m ∷ rest') a value b
  unfolding root get
  show-older state m rest rest' a value b len below shows = elim (Bool-cases (b == length rest)) [
    | inl here' ↦ inr (
      (λ e. absurd (not_same a b (length rest) below here' (rw here' at e))),
      rw (len, here') refl,
    )
    | inr older ↦ rw (len, older) shows
  ]

  -- A write that succeeds is seen through every cell that leads to the written one, however long the
  -- chain of imports, and through no other cell; no cell comes or goes.
  pub set-Shows :
      (heap : List (BindingCell V)) (a : ℕ) (value : V) (heap' : List (BindingCell V)) (b : ℕ)
      → set heap a value ≡ some (ok heap')
      → Shows heap heap' a value b × (length heap' ≡ length heap)
  unfolding set
  set-Shows [] a value heap' b e = absurd (cc)
  set-Shows (direct state m ∷ rest) a value heap' b e =
      elim (set-direct state m rest a value heap' e) [
        | inl (top, same) ↦ rw same (show-newest state m rest a value b top, refl)
        | inr (below, rest', e', same) ↦
            let (shows, len) = set-Shows rest a value rest' b e' in
            rw same (show-older state m rest rest' a value b len below shows, ap suc len)
      ]
  set-Shows (indirect target ∷ rest) a value heap' b e =
      let (rest', e', same) = set-indirect target rest a value heap' e in
      let (shows, len) = set-Shows rest a value rest' (if b == length rest then target else b) e' in
      rw same (show-indirect target rest rest' a value b len shows, ap suc len)
