-- ===== src/TrackerCpp/FileMgr/Lookup.antt =====
-- What `get` finds after `getFile`.
use raiezau.Base.{
  ℕ, ◌≡◌, refl, ◌∙◌, true, Option, none, some, List, [], ◌∷◌, arith, if◌then◌else◌, get_elem?,
  get_elem?-append_length, Bool-cases, Option-cases, inl, inr,
}
use raiezau.Base.Bytes.{Bytes, str_eq, str_eq_iff, str_eq_sound}
use raiezau.Cutil.HashTable.Keys.{lookup, lookup_append}
use raiezau.Cutil.Uthash.{Lacks}
use raiezau.TrackerCpp.FileMgr.{File, FileMgr, same_file, get, map_insert, insert, get_file}

-- The old binding, or else the new one.
unfoldable pub kept : Option ℕ → ℕ → Option ℕ
kept none p = some p
kept (some q) p = some q

lookup-none : (hash : Bytes) (map : List (Bytes × ℕ)) → lookup hash map ≡ none → Lacks hash map
unfolding lookup
lookup-none hash [] e = tt
lookup-none hash ((j, q) ∷ map) e = ground (arith, lookup-none hash map)

kept_new :
    (hash j : Bytes) (p : ℕ) (map : List (Bytes × ℕ))
    → lookup hash map ≡ none
    → (if str_eq hash j then some p else lookup j map)
      ≡ (if str_eq hash j then kept (lookup j map) p else lookup j map)
unfolding kept
kept_new hash j p map e = elim (Bool-cases (str_eq hash j)) [
  | inl same ↦ let eq : hash ≡ j = (str_eq_iff hash j).0 same in rw (same, ← eq, e) refl
  | inr other ↦ rw other refl
]

kept_old :
    (hash j : Bytes) (p : ℕ) (map : List (Bytes × ℕ)) {q : ℕ}
    → lookup hash map ≡ some q
    → lookup j map ≡ (if str_eq hash j then kept (lookup j map) p else lookup j map)
unfolding kept
kept_old hash j p map e = elim (Bool-cases (str_eq hash j)) [
  | inl same ↦ let eq : hash ≡ j = (str_eq_iff hash j).0 same in rw (same, ← eq, e) refl
  | inr other ↦ rw other refl
]

lookup-map_insert :
    (hash j : Bytes) (p : ℕ) (map : List (Bytes × ℕ))
    → lookup j (map_insert hash p map)
      ≡ (if str_eq hash j then kept (lookup j map) p else lookup j map)
unfolding map_insert kept
lookup-map_insert hash j p map = elim (Option-cases (lookup hash map)) [
  | inl e ↦
      rw (map_insert, e)
        (lookup_append j hash p map (lookup-none hash map e) ∙ kept_new hash j p map e)
  | inr (q, e) ↦ rw (map_insert, e) (kept_old hash j p map e)
]

-- A file as it is asked for.
pub record Fits (x : File) (file_size piece_size : ℕ) (hash : Bytes) : Type 0 where
  pub size : x.file_size ≡ file_size
  pub piece : x.piece_size ≡ piece_size
  pub key : x.hash ≡ hash

same_file_lem : (y x : File) → same_file y x ≡ true → Fits y x.file_size x.piece_size x.hash
unfolding same_file
same_file_lem y x e = record {
  size = ground arith;
  piece = ground arith;
  key = ground (arith, str_eq_sound y.hash x.hash);
}

-- If what the map has for the hash is a file, then `getFile` gives a file with the sizes and the hash
-- that are asked for, and afterwards the map has the same for every other hash; for this one it
-- has what it had, and the file that is given only if it had none.
pub get_file_lem :
    (file_name : Bytes) (file_size piece_size : ℕ) (hash : Bytes) (m : FileMgr)
    → ((q : ℕ) → get m hash ≡ some q → (y : File) × (get_elem? m.files q ≡ some y))
    → (p : ℕ) × (m' : FileMgr) × (x : File) × (get_file file_name file_size piece_size hash m
        ≡ some (p, m'))
      × (get_elem? m'.files p ≡ some x)
      × Fits x file_size piece_size hash
      × ((j : Bytes) → get m' j ≡ (if str_eq hash j then kept (get m j) p else get m j))
unfolding get get_file insert
get_file_lem file_name file_size piece_size hash m valid =
    let x : File = record {
      file_name = file_name;
      file_size = file_size;
      piece_size = piece_size;
      hash = hash;
      peers = [];
    } in
    let made = insert x m in
    let fits : Fits x file_size piece_size hash = record {
      size = refl;
      piece = refl;
      key = refl;
    } in
    elim (Option-cases (lookup hash m.map)) [
      | inl e ↦ (
        made.0,
        made.1,
        x,
        rw (get_file, e) refl,
        get_elem?-append_length m.files [] x,
        fits,
        λ j. lookup-map_insert hash j _ m.map,
      )
      | inr (q, e) ↦
          let (y, at) = valid q e in
          elim (Bool-cases (same_file y x)) [
            | inr other ↦ (
              made.0,
              made.1,
              x,
              rw (get_file, e, at, other) refl,
              get_elem?-append_length m.files [] x,
              fits,
              λ j. lookup-map_insert hash j _ m.map,
            )
            | inl same ↦ (
              q,
              m,
              y,
              rw (get_file, e, at, same) refl,
              at,
              same_file_lem y x same,
              λ j. kept_old hash j q m.map e,
            )
          ]
    ]
