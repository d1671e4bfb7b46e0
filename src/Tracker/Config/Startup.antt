-- ===== src/Tracker/Config/Startup.antt =====
-- The options that `main` goes by, from the command line and a file that is one mapping of scalars.
use raiezau.Base.{
  ℕ, suc, ◌+◌, ◌≡◌, refl, sym, ap, ◌∙◌, true, Option, some, List, [], ◌∷◌, ◌++◌, arith, length,
  append_assoc, append-nil, length-append, get_elem?, get_elem?-append_length, Bool-cases, inl, inr,
}
use raiezau.Base.Bytes.{Bytes}
use raiezau.Cutil.HashTable
use raiezau.Cutil.HashTable.{success}
use raiezau.Cutil.HashTable.Laws.{IsMap, get_entry-lookup}
use raiezau.Cutil.Uthash.{Uthash}
use raiezau.Cutil.Yaml.{Event, Content, mapping, scalar, returned, wrap_at}
use raiezau.Cutil.Yaml.Mapping.{tabled, values, mapping_events, parse_mapping}
use raiezau.Tracker.Config.{
  load_option_from_config, load_config_file, Document, load_result, option_get_config_file_path,
}
use raiezau.Tracker.Config.Precedence.{chosen, put_free, add_free, add_free_lem}

-- the entries of a mapping, their values numbered
numbered : ℕ → List (Bytes × Bytes) → List (Bytes × ℕ)
numbered n [] = []
numbered n ((k, v) ∷ ps) = (k, n) ∷ numbered (n + 1) ps

entries-tabled :
    (y : Uthash ℕ) (t : y.Table) (n : ℕ) (ps : List (Bytes × Bytes))
    → y.entries (tabled y t n ps) ≡ y.entries t ++ numbered n ps
unfolding tabled numbered HashTable.add_entry
entries-tabled y t n [] = sym (append-nil (y.entries t))
entries-tabled y t n ((k, v) ∷ ps) =
    entries-tabled y _ (n + 1) ps ∙ rw (y.entries-add k n t, append_assoc (y.entries t)) refl

-- The file, with nothing but its pairs in it.
abbrev pub IsMappingFile : Document → List (Bytes × Bytes) → List (Option Event) → Type 0
IsMappingFile file ps rest =
    (file.exists ≡ true)
    × (file.initialized ≡ true)
    × (file.opened ≡ true)
    × (length file.memory ≡ 100)
    × (file.events ≡ mapping_events ps rest)

module _ (o : Uthash Bytes) (y : Uthash ℕ) where
  wrap_at_lem : (wraps : List (Content y)) (i : ℕ) → wrap_at y wraps (i + 1) ≡ get_elem? wraps i
  unfolding wrap_at
  wrap_at_lem wraps i = let e : i + 1 ≡ suc i = omega arith in rw (e, wrap_at) refl

  load_one :
      (wraps : List (Content y)) (k v : Bytes) (n : ℕ) (options : o.Table)
      → wrap_at y wraps n ≡ some (scalar v)
      → load_option_from_config o y wraps k n (some options) ≡ some (put_free o k v options)
  unfolding load_option_from_config put_free
  load_one wraps k v n options e = elim (Bool-cases (HashTable.has_entry o options k)) [
    | inl h ↦ rw (load_option_from_config, h, put_free) refl
    | inr h ↦ rw (load_option_from_config, h, put_free, e) refl
  ]

  load_all :
      (ps : List (Bytes × Bytes)) (before : List (Content y)) (options : o.Table)
      → HashTable.fold_entries y
          (load_option_from_config o y (before ++ values y ps))
          (numbered (length before + 1) ps)
          (some options)
        ≡ some (add_free o ps options)
  unfolding HashTable.fold_entries numbered add_free values
  load_all [] before options = refl
  load_all ((k, v) ∷ ps) before options =
      let wraps = before ++ scalar v ∷ values y ps in
      let at : wrap_at y wraps (length before + 1) ≡ some (scalar v) =
        wrap_at_lem wraps (length before)
        ∙ get_elem?-append_length before (values y ps) (scalar v) in
      let further : length (before ++ scalar v ∷ []) + 1 ≡ length before + 1 + 1 =
        omega (arith, length-append before (scalar v ∷ [])) in
      let later = load_all ps (before ++ scalar v ∷ []) (put_free o k v options) in
      ap
        (HashTable.fold_entries y (load_option_from_config o y wraps)
          (numbered (length before + 1 + 1) ps))
        (load_one wraps k v (length before + 1) options at)
      ∙ (rw (further, append_assoc before (scalar v ∷ [])) at later)

  load_mapping :
      (ps : List (Bytes × Bytes)) (options : o.Table)
      → load_result o y
          (returned success (some 1) (mapping (tabled y (HashTable.create y) 2 ps) ∷ values y ps))
          options
        ≡ some (add_free o ps options)
  unfolding load_result HashTable.for_each wrap_at HashTable.create
  load_mapping ps options =
      let table : y.entries (tabled y y.nil 2 ps) ≡ numbered 2 ps =
        entries-tabled y y.nil 2 ps ∙ rw y.entries-nil refl in
      rw table (load_all ps (mapping (tabled y y.nil 2 ps) ∷ []) options)

  load_file :
      (files : Bytes → Document) (options : o.Table) (ps : List (Bytes × Bytes))
      (rest : List (Option Event))
      → IsMappingFile (files (option_get_config_file_path o options)) ps rest
      → load_config_file o y files options ≡ some (add_free o ps options)
  unfolding load_config_file
  load_file files options ps rest (exists, initialized, opened, room, events) =
      rw (load_config_file, exists, initialized, opened, events, parse_mapping y _ ps rest room)
        (load_mapping ps options)

  -- If the options of the command line have distinct names, and the configuration file that they name,
  -- or `./config.yaml`, is there, can be read and is one mapping of scalars, then loading the file
  -- gives each option the value of the command line, or else the first value that the file has for it,
  -- and no others.
  pub get_entry-load_config_file :
      (files : Bytes → Document) (options : o.Table) (ps : List (Bytes × Bytes))
      (rest : List (Option Event))
      → IsMap o options
      → IsMappingFile (files (option_get_config_file_path o options)) ps rest
      → (loaded : o.Table) × (load_config_file o y files options ≡ some loaded)
        × ((key : Bytes)
            → HashTable.get_entry o loaded key ≡ chosen (HashTable.get_entry o options key) key ps)
  get_entry-load_config_file files options ps rest d file =
      let (d', e) = add_free_lem o ps options d in
      (
        add_free o ps options,
        load_file files options ps rest file,
        λ key.
            get_entry-lookup o _ key d'
            ∙ e key
            ∙ ap (λ found. chosen found key ps) (sym (get_entry-lookup o options key d)),
      )
