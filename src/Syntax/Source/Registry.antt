-- ===== src/Syntax/Source/Registry.antt =====
-- crates/js-syntax/src/source.rs: the files of a `SourceMap`.
use justscript.Prelude.{
  ℕ, ◌^◌, ◌<◌, ◌≡◌, ◌≢◌, inl, inr, some, arith, if◌then◌else◌, Bool-cases, Option-cases, ◌==◌,
  list_beq_iff, length, get_elem?, get_elem?-concat, get_elem?-some_lt, lookup, lookup-insert, Text,
  nat_eq, list_eq,
}
use justscript.Syntax.Source.{Bytes, SourceFile, SourceMap, with_id, new, add, get, latest}

-- Every file is found under its own identity, and every name leads to a file of that name.
pub record IsRegistry (m : SourceMap) : Type 0 where
  pub id_is_index : (i : ℕ) (f : SourceFile) → get_elem? m.files i ≡ some f → f.id ≡ i
  pub name_is_latest :
      (name : Text) (id : ℕ)
      → lookup name m.latest_by_name ≡ some id
      → (f : SourceFile) × (get_elem? m.files id ≡ some f) × (f.name ≡ name)

pub new-IsRegistry : IsRegistry new
unfolding lookup
new-IsRegistry = record {
  id_is_index = λ i f e. absurd (cc);
  name_is_latest = λ n i e. absurd (cc);
}

module _ (name : Text) (src : Bytes) (m : SourceMap) (h : length m.files < 2 ^ 32)
    (r : IsRegistry m) where
  abbrev file : SourceFile
  file = with_id (length m.files) name src

  get-add :
      (i : ℕ)
      → get_elem? (add name src m).0.files i
        ≡ (if i == length m.files then some file else get_elem? m.files i)
  unfolding add
  get-add i = ground (arith, get_elem?-concat m.files file i)

  lookup-add :
      (other : Text)
      → lookup other (add name src m).0.latest_by_name
        ≡ (if name == other then some (length m.files) else lookup other m.latest_by_name)
  unfolding add
  lookup-add other = ground (arith, lookup-insert name other (length m.files) m.latest_by_name)

  file-add : ((add name src m).1 ≡ file) × ((add name src m).1.id ≡ length m.files)
  unfolding add with_id
  file-add = (ground arith, ground arith)

  get-add_old :
      (i : ℕ) (f : SourceFile)
      → get_elem? m.files i ≡ some f
      → get_elem? (add name src m).0.files i ≡ some f
  get-add_old i f e = ground (arith, get-add i, get_elem?-some_lt m.files i e)

  -- Registering a source in a well-formed map of fewer than 2 ^ 32 files keeps the map well formed.
  pub add-IsRegistry : IsRegistry (add name src m).0
  add-IsRegistry = record {
    id_is_index = λ i f. unfold with_id in ground (arith, get-add i, r.id_is_index i f);
    name_is_latest = λ other id e. elim (Bool-cases (name == other)) [
      | inl same ↦ (
        file,
        ground (arith, get-add id, lookup-add other),
        unfold with_id in ground (arith, list_beq_iff name other),
      )
      | inr ne ↦
          let (f, found, named) = r.name_is_latest other id (ground (arith, lookup-add other)) in
          (f, get-add_old id f found, named)
    ];
  }

  -- A source registered in a well-formed map of fewer than 2 ^ 32 files is at once the latest of
  -- its name and found under its identity. The files that were there keep their identities, and the
  -- other names their latest file.
  pub add_lem :
      (latest (add name src m).0 name ≡ some (add name src m).1)
      × (get (add name src m).0 (add name src m).1.id ≡ some (add name src m).1)
      × ((id : ℕ) (f : SourceFile) → get m id ≡ some f → get (add name src m).0 id ≡ some f)
      × ((other : Text) → other ≢ name → latest (add name src m).0 other ≡ latest m other)
  unfolding latest get
  add_lem = (
    ground (arith, file-add.0, lookup-add name, get-add (length m.files), list_beq_iff name name),
    ground (arith, file-add.0, file-add.1, get-add (length m.files)),
    get-add_old,
    λ other ne. elim (Option-cases (lookup other m.latest_by_name)) [
      | inl e ↦ ground (arith, lookup-add other, list_beq_iff name other)
      | inr (id, e) ↦
          let (f, found, _) = r.name_is_latest other id e in
          ground (arith, lookup-add other, list_beq_iff name other, get-add_old id f found)
    ],
  )
