-- ===== src/Tracker/File/Registry.antt =====
-- `file_get_or_create` and the two tables of tracker/file.c.
use raiezau.Base.{
  ℕ, ◌≡◌, ◌≢◌, refl, ap, ◌∙◌, false, none, some, [], ◌∷◌, ◌++◌, ◌==◌, arith, if◌then◌else◌, length,
  get_elem?, Bool-cases, inl, inr, get_elem?-append_length, get_elem?-append_left, get_elem?-snoc,
}
use raiezau.Base.Bytes.{Bytes, str_eq, str_eq_iff}
use raiezau.Cutil.HashTable
use raiezau.Cutil.HashTable.Laws.{IsMap, get_entry-lookup, add_entry-IsMap, lookup-add_entry}
use raiezau.Cutil.HashTable.Keys.{lookup}
use raiezau.Cutil.Uthash.{Uthash}
use raiezau.Tracker.File.{
  push_name, file_register, new_object, file_new, file_get_by_key, file_get_or_create,
}
use raiezau.Tracker.State.{File, State}

module _ {u : Uthash ℕ} where
  -- `file_by_hash` holds each file exactly once, under its key.
  pub record IsRegistry (s : State u) : Type 0 where
    pub distinct : IsMap u s.file_by_hash
    -- what the table gives for a key is a file with that key
    pub sound :
        (k : Bytes) (p : ℕ)
        → file_get_by_key u s k ≡ some p
        → (x : File u) × (get_elem? s.files p ≡ some x) × (x.md5_str ≡ k)
    -- every file is found under its key
    pub complete :
        (p : ℕ) (x : File u) → get_elem? s.files p ≡ some x → file_get_by_key u s x.md5_str ≡ some p

module _ (u : Uthash ℕ) where
  module _ (f : ℕ) (x : File u) (s : State u) where
    register_files : (file_register u f x s).files ≡ s.files
    unfolding file_register
    register_files = ground arith

    register_cells : (file_register u f x s).client_at ≡ s.client_at
    unfolding file_register push_name
    register_cells = ground arith

    register_by_hash :
        (file_register u f x s).file_by_hash ≡ HashTable.add_entry u s.file_by_hash x.md5_str f
    unfolding file_register
    register_by_hash = ground arith

  module _ (filename : Bytes) (size piece_size : ℕ) (key : Bytes) (s : State u) where
    -- the state after `file_new`
    abbrev created : State u
    created =
        let x = new_object u filename size piece_size key in
        file_register u (length s.files) x (record s { files = s.files ++ x ∷ [] })

    created_table : created.file_by_hash ≡ HashTable.add_entry u s.file_by_hash key (length s.files)
    unfolding new_object
    created_table = register_by_hash _ _ _

    created_files : created.files ≡ s.files ++ new_object u filename size piece_size key ∷ []
    created_files = register_files _ _ _

    created_cells : created.client_at ≡ s.client_at
    created_cells =
        let x = new_object u filename size piece_size key in
        register_cells (length s.files) x (record s { files = s.files ++ x ∷ [] })

    created_distinct : IsRegistry s → file_get_by_key u s key ≡ none → IsMap u created.file_by_hash
    unfolding file_get_by_key
    created_distinct r e =
        rw created_table (add_entry-IsMap u s.file_by_hash key (length s.files) r.distinct e)

    get-created :
        (j : Bytes)
        → IsRegistry s
        → file_get_by_key u s key ≡ none
        → file_get_by_key u created j
          ≡ (if str_eq key j then some (length s.files) else file_get_by_key u s j)
    unfolding file_get_by_key
    get-created j r e =
        get_entry-lookup u created.file_by_hash j (created_distinct r e)
        ∙ ap (λ t. lookup j (u.entries t)) created_table
        ∙ lookup-add_entry u s.file_by_hash j key (length s.files) e
        ∙ rw (← get_entry-lookup u s.file_by_hash j r.distinct)

    created_sound :
        IsRegistry s
        → file_get_by_key u s key ≡ none
        → (k : Bytes) (p : ℕ) → file_get_by_key u created k ≡ some p
        → (x : File u) × (get_elem? created.files p ≡ some x) × (x.md5_str ≡ k)
    created_sound r e k p h = elim (Bool-cases (str_eq key k)) [
      | inl same ↦
          let at : some (length s.files) ≡ some p = rw (get-created k r e, same) at h in
          let index : length s.files ≡ p = cc in
          (
            new_object u filename size piece_size key,
            rw (created_files, ← index) (get_elem?-append_length s.files [] _),
            unfold new_object in (str_eq_iff key k).0 same,
          )
      | inr other ↦
          let (x, at, md5) = r.sound k p (rw (get-created k r e, other) at h) in
          (x, rw created_files (get_elem?-append_left s.files _ p at), md5)
    ]

    created_complete :
        IsRegistry s
        → file_get_by_key u s key ≡ none
        → (p : ℕ) (x : File u) → get_elem? created.files p ≡ some x
        → file_get_by_key u created x.md5_str ≡ some p
    created_complete r e p x h =
        rw (get-created x.md5_str r e) (elim (get_elem?-snoc s.files _ p (rw created_files at h)) [
          | inl old ↦ ground (arith, str_eq_iff key x.md5_str, r.complete p x old)
          | inr (at, new) ↦
              let md5 : x.md5_str ≡ key = ap (λ y. y.md5_str) new ∙ unfold new_object in refl in
              ground (arith, str_eq_iff key x.md5_str)
        ])

    created-IsRegistry : IsRegistry s → file_get_by_key u s key ≡ none → IsRegistry created
    created-IsRegistry r e = record {
      distinct = created_distinct r e;
      sound = created_sound r e;
      complete = created_complete r e;
    }

  -- While `file_by_hash` holds each file exactly once, under its key, `file_get_or_create` of a new
  -- key with a `piece_size` other than 0 returns a new file with the given fields, behind the old
  -- files, which stay as they were; from then on the key gives that file, every other key gives what
  -- it gave, and `file_by_hash` again holds each file exactly once, under its key. No client changes.
  pub file_get_or_create_new :
      (filename : Bytes) (size piece_size : ℕ) (key : Bytes) (s : State u)
      → IsRegistry s
      → file_get_by_key u s key ≡ none
      → piece_size ≢ 0
      → (s' : State u) × (file_get_or_create u filename size piece_size key s
          ≡ some (length s.files, s'))
        × IsRegistry s'
        × (s'.client_at ≡ s.client_at)
        × (s'.files ≡ s.files ++ new_object u filename size piece_size key ∷ [])
        × ((j : Bytes)
            → file_get_by_key u s' j
              ≡ (if str_eq key j then some (length s.files) else file_get_by_key u s j))
  unfolding file_get_or_create file_new
  file_get_or_create_new filename size piece_size key s r e nz =
      let test : (piece_size == 0) ≡ false = ground arith in
      (
        created filename size piece_size key s,
        rw (e, file_get_or_create, test, file_new),
        created-IsRegistry filename size piece_size key s r e,
        created_cells filename size piece_size key s,
        created_files filename size piece_size key s,
        λ j. get-created filename size piece_size key s j r e,
      )
