-- ===== src/Syntax/Source/Lines.antt =====
-- crates/js-syntax/src/source.rs: `SourceFile::loc` against a reading of the text byte by byte.
use justscript.Prelude.{
  ℕ, zero, suc, ◌+◌, ◌-◌, ◌^◌, ◌≤◌, ◌<◌, ◌≡◌, refl, ◌∙◌, inl, inr, Option, none, some, List, [],
  ◌∷◌, arith, if◌then◌else◌, Bool-cases, ◌==◌, length, get_elem?, take, get_elem?-some_lt, Text,
  u32, nat_eq, list_eq,
}
use justscript.Syntax.Source.{
  Bytes, Loc, starts_from, with_id, insert_at, binary_search, line_index, loc,
}

-- The location behind one more byte.
abbrev pub advance : Loc → ℕ → Loc
advance l b =
    if b == b'\n'
    then record { line = l.line + 1; column = 1 }
    else record { line = l.line; column = l.column + 1 }

abbrev pub walk : Loc → Bytes → Loc
walk l [] = l
walk l (b ∷ bs) = walk (advance l b) bs

-- `loc` over a list of line starts whose first line has the number `base + 1`.
resolve : List ℕ → ℕ → ℕ → Option Loc
resolve starts pos base =
    let line_idx = line_index (binary_search starts pos) in
    elim (get_elem? starts line_idx) [
      | none ↦ none
      | some line_start ↦
          some (record { line = line_idx + base + 1; column = (pos - line_start) + 1 })
    ]

search_before :
    (bs : Bytes) (i pos : ℕ)
    → pos ≤ i
    → i + length bs < 2 ^ 32
    → binary_search (starts_from i bs) pos ≡ insert_at 0
unfolding starts_from binary_search
search_before [] i pos h k = refl
search_before (b ∷ bs) i pos h k = ground (arith, search_before bs (i + 1) pos)

resolve_here :
    (bs : Bytes) (i s base : ℕ)
    → s ≤ i
    → i + length bs < 2 ^ 32
    → resolve (s ∷ starts_from i bs) i base
      ≡ some (record { line = base + 1; column = (i - s) + 1 })
unfolding resolve binary_search
resolve_here bs i s base h k = ground (arith, search_before bs i i)

resolve_skip :
    (s t pos base : ℕ) (starts : List ℕ)
    → s < t
    → t ≤ pos
    → resolve (s ∷ t ∷ starts) pos base ≡ resolve (t ∷ starts) pos (base + 1)
unfolding resolve binary_search
resolve_skip s t pos base starts h k = ground arith

resolve-walk :
    (bs : Bytes) (d i s base : ℕ)
    → s ≤ i
    → d ≤ length bs
    → i + length bs < 2 ^ 32
    → resolve (s ∷ starts_from i bs) (i + d) base
      ≡ some (walk (record { line = base + 1; column = (i - s) + 1 }) (take d bs))
unfolding starts_from
resolve-walk bs zero i s base h k n = ground (arith, resolve_here bs i s base)
resolve-walk [] (suc d) i s base h k n = absurd (omega arith)
resolve-walk (b ∷ bs) (suc d) i s base h k n = elim (Bool-cases (b == b'\n')) [
  | inl newline ↦ rw newline (
      ground (
        arith,
        resolve_skip s (i + 1) (i + suc d) base (starts_from (i + 1) bs),
        resolve-walk bs d (i + 1) (i + 1) (base + 1),
      ))
  | inr other ↦ rw other (ground (arith, resolve-walk bs d (i + 1) s base))
]

length-starts_from : (i : ℕ) (bs : Bytes) → length (starts_from i bs) ≤ length bs
unfolding starts_from
length-starts_from i [] = omega arith
length-starts_from i (b ∷ bs) = ground (arith, length-starts_from (i + 1) bs)

resolve_cast :
    (found : Option ℕ) (idx pos : ℕ)
    → ((start : ℕ) → found ≡ some start → idx < 2 ^ 32)
    → ◌≡◌ {A = Option Loc}
        (elim found [
          | none ↦ none
          | some start ↦ some (record { line = u32 idx + 1; column = (pos - start) + 1 })
        ])
        (elim found [
          | none ↦ none
          | some start ↦ some (record { line = idx + 0 + 1; column = (pos - start) + 1 })
        ])
resolve_cast none idx pos h = refl
resolve_cast (some start) idx pos h = let k : idx < 2 ^ 32 = h start refl in ground arith

loc-resolve :
    (id : ℕ) (name : Text) (src : Bytes) (pos : ℕ)
    → length src < 2 ^ 32
    → loc (with_id id name src) pos ≡ resolve (0 ∷ starts_from 0 src) pos 0
unfolding loc resolve with_id
loc-resolve id name src pos h =
    let starts = 0 ∷ starts_from 0 src in
    let idx = line_index (binary_search starts pos) in
    resolve_cast (get_elem? starts idx) idx pos
      (λ start e. omega (arith, get_elem?-some_lt starts idx e, length-starts_from 0 src))

-- The location of a position inside a text shorter than 2 ^ 32 bytes, or at its end, is the one
-- that a reader reaches who starts at line 1, column 1 and reads the bytes in front of it.
pub loc-walk :
    (id : ℕ) (name : Text) (src : Bytes) (pos : ℕ)
    → length src < 2 ^ 32
    → pos ≤ length src
    → loc (with_id id name src) pos ≡ some (walk (record { line = 1; column = 1 }) (take pos src))
loc-walk id name src pos h k =
    loc-resolve id name src pos h ∙ ground (arith, resolve-walk src pos 0 0 0)
