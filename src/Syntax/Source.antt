-- ===== src/Syntax/Source.antt =====
-- crates/js-syntax/src/source.rs: spans, source files and source maps. A `BytePos` is its number,
-- a `str` is the list of its UTF-8 bytes.
pub mod Lines
pub mod Registry
use justscript.Prelude.{
  ℕ, suc, ◌+◌, ◌-◌, min, max, Bool, true, false, ◌&&◌, ◌||◌, Option, none, some, List, [], ◌∷◌,
  ◌++◌, ltb, leb, if◌then◌else◌, ◌==◌, length, get_elem?, take, drop, Map, lookup, insert, Text,
  u32, nat_eq, list_eq,
}

abbrev pub Bytes : Type 0
Bytes = List ℕ

pub record Span : Type 0 where
  pub start : ℕ
  pub end : ℕ

abbrev pub dummy : Span
dummy = record { start = 0; end = 0 }

unfoldable pub is_dummy : Span → Bool
is_dummy s = s.start == 0 && s.end == 0

unfoldable pub len : Span → ℕ
len s = s.end - s.start

unfoldable pub is_empty : Span → Bool
is_empty s = s.start == s.end

-- The smallest span that covers both.
unfoldable pub to : Span → Span → Span
to s other = record { start = min s.start other.start; end = max s.end other.end }

-- `str::is_char_boundary`: no continuation byte stands at the index.
is_char_boundary : Bytes → ℕ → Bool
is_char_boundary src i =
    if i == length src
    then true
    else elim (get_elem? src i) [ none ↦ false | some b ↦ ltb b 128 || leb 192 b ]

-- `src.get(start..end)`
unfoldable pub snippet : Span → Bytes → Option Bytes
unfolding is_char_boundary
snippet s src =
    if leb s.start s.end && is_char_boundary src s.start && is_char_boundary src s.end
    then some (take (s.end - s.start) (drop s.start src))
    else none

pub record Loc : Type 0 where
  pub line : ℕ
  pub column : ℕ

pub record SourceFile : Type 0 where
  pub id : ℕ
  pub name : Text
  pub src : Bytes
  pub line_starts : List ℕ

-- What the loop of `with_id` pushes from byte `i` on.
pub starts_from : ℕ → Bytes → List ℕ
starts_from i [] = []
starts_from i (b ∷ bs) =
    if b == b'\n' then u32 (i + 1) ∷ starts_from (i + 1) bs else starts_from (i + 1) bs

unfoldable pub with_id : ℕ → Text → Bytes → SourceFile
unfolding starts_from
with_id id name src = record {
  id = id;
  name = name;
  src = src;
  line_starts = 0 ∷ starts_from 0 src;
}

-- What `slice::binary_search` returns on a strictly increasing slice.
pub data Found : Type 0 where
  at insert_at : ℕ → Found

shift : Found → Found
shift (at i) = at (suc i)
shift (insert_at i) = insert_at (suc i)

pub binary_search : List ℕ → ℕ → Found
unfolding shift
binary_search [] x = insert_at 0
binary_search (y ∷ ys) x =
    if y == x then at 0 else if ltb x y then insert_at 0 else shift (binary_search ys x)

abbrev pub line_index : Found → ℕ
line_index (at i) = i
line_index (insert_at i) = i - 1

-- `none` is the panic of the index.
unfoldable pub loc : SourceFile → ℕ → Option Loc
unfolding binary_search
loc file pos =
    let line_idx = line_index (binary_search file.line_starts pos) in
    elim (get_elem? file.line_starts line_idx) [
      | none ↦ none
      | some line_start ↦ some (record { line = u32 line_idx + 1; column = (pos - line_start) + 1 })
    ]

unfoldable pub span_locs : SourceFile → Span → Option Loc × Option Loc
unfolding loc
span_locs file s = (loc file s.start, loc file s.end)

pub record SourceMap : Type 0 where
  pub files : List SourceFile
  pub latest_by_name : Map Text ℕ

abbrev pub new : SourceMap
new = record { files = []; latest_by_name = [] }

-- The new map and the file that it hands out.
unfoldable pub add : Text → Bytes → SourceMap → SourceMap × SourceFile
add name src m =
    let id = u32 (length m.files) in
    let file = with_id id name src in
    (
      record { files = m.files ++ file ∷ []; latest_by_name = insert name id m.latest_by_name },
      file,
    )

unfoldable pub get : SourceMap → ℕ → Option SourceFile
get m id = get_elem? m.files id

unfoldable pub latest : SourceMap → Text → Option SourceFile
unfolding get
latest m name = elim (lookup name m.latest_by_name) [ none ↦ none | some id ↦ get m id ]
