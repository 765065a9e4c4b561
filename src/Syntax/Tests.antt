-- ===== src/Syntax/Tests.antt =====
-- Runs of crates/js-syntax on small sources, keywords and tokens.
use justscript.Prelude.{ℕ, ◌^◌, ◌<◌, ◌≡◌, refl, ◌≢◌, some, arith, length, take, Text, codes}
use justscript.Syntax.Source
use justscript.Syntax.Source.{Bytes, Loc, SourceFile, SourceMap, with_id, loc, latest}
use justscript.Syntax.Source.Lines.{walk, loc-walk}
use justscript.Syntax.Source.Registry.{IsRegistry, new-IsRegistry, add-IsRegistry, add_lem}
use justscript.Syntax.Keyword.{Keyword, from_str}

abbrev name : Text
name = codes "a.js"

abbrev src : Bytes
src = codes "let\nx"

loc-src : loc (with_id 0 name src) 4 ≡ some (record { line = 2; column = 1 })
unfolding loc with_id
loc-src = refl

loc-walk_example :
    loc (with_id 0 name src) 4 ≡ some (walk (record { line = 1; column = 1 }) (take 4 src))
loc-walk_example = loc-walk 0 name src 4 (omega arith) (omega arith)

abbrev registry : SourceMap
registry = (Source.add name src Source.new).0

registry-room : length registry.files < 2 ^ 32
unfolding Source.add
registry-room = omega arith

registry-IsRegistry : IsRegistry registry
registry-IsRegistry = add-IsRegistry name src Source.new (omega arith) new-IsRegistry

add_lem_example :
    (latest (Source.add name src registry).0 name ≡ some (Source.add name src registry).1)
    × (Source.get (Source.add name src registry).0 (Source.add name src registry).1.id
        ≡ some (Source.add name src registry).1)
    × ((id : ℕ) (f : SourceFile)
        → Source.get registry id ≡ some f
        → Source.get (Source.add name src registry).0 id ≡ some f)
    × ((other : Text)
        → other ≢ name
        → latest (Source.add name src registry).0 other ≡ latest registry other)
add_lem_example = add_lem name src registry registry-room registry-IsRegistry

await-from_str : from_str (codes "await") ≡ some Keyword.await
unfolding from_str
await-from_str = refl
