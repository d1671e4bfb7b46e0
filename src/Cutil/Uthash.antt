-- ===== src/Cutil/Uthash.antt =====
-- What cutil/hash_table.c uses of uthash (cutil/uthash.h, a copy of another project's library):
-- a parameter of the development, with the behaviour that uthash's manual documents. `Table` is
-- the head pointer of a table whose entries have a string key and a `void *`, and `assoc` is a
-- table that behaves so.
use raiezau.Base.{
  ℕ, ◌≡◌, refl, false, Option, none, some, List, [], ◌∷◌, ◌++◌, arith, length, if◌then◌else◌, All,
  Bool-cases, inl, inr,
}
use raiezau.Base.Bytes.{Bytes, str_eq, str_eq_sound}

-- `k` is the key of no entry.
abbrev pub Lacks {ℓ} : {V : Type ℓ} → Bytes → List (Bytes × V) → Type 0
Lacks k = All (λ e. str_eq e.0 k ≡ false)

pub record Uthash (V : Type 0) : Type 1 where
  pub Table : Type 0
  -- `NULL`, the empty table
  pub nil : Table
  -- the entries in the order in which `HASH_ITER` visits them
  pub entries : Table → List (Bytes × V)
  -- `HASH_COUNT`
  pub count : Table → ℕ
  -- `HASH_ADD_STR` of a new entry with this key and pointer
  pub add : Bytes → V → Table → Table
  -- the pointer of the entry that `HASH_FIND_STR` finds
  pub find : Bytes → Table → Option V
  -- `HASH_DEL` of the entry that `HASH_FIND_STR` finds
  pub del : Bytes → Table → Table
  pub entries-nil : entries nil ≡ []
  -- iteration is in the order of insertion
  pub entries-add : (k : Bytes) (v : V) (t : Table) → entries (add k v t) ≡ entries t ++ (k, v) ∷ []
  pub count_lem : (t : Table) → count t ≡ length (entries t)
  pub find_none : (k : Bytes) (t : Table) → find k t ≡ none → Lacks k (entries t)
  -- what is found is an entry of the table, and `HASH_DEL` unlinks that entry and no other
  pub find_some :
      (k : Bytes) (t : Table) {v : V}
      → find k t ≡ some v
      → (xs ys : List (Bytes × V)) × (entries t ≡ xs ++ (k, v) ∷ ys)
        × (entries (del k t) ≡ xs ++ ys)

module _ {V : Type 0} where
  unfoldable pub assoc_find : Bytes → List (Bytes × V) → Option V
  assoc_find k [] = none
  assoc_find k ((j, v) ∷ m) = if str_eq j k then some v else assoc_find k m

  unfoldable pub assoc_del : Bytes → List (Bytes × V) → List (Bytes × V)
  assoc_del k [] = []
  assoc_del k ((j, v) ∷ m) = if str_eq j k then m else (j, v) ∷ assoc_del k m

  pub assoc_find-none : (k : Bytes) (m : List (Bytes × V)) → assoc_find k m ≡ none → Lacks k m
  unfolding assoc_find
  assoc_find-none k [] h = tt
  assoc_find-none k ((j, v) ∷ m) h = ground (arith, assoc_find-none k m)

  pub assoc_find-some :
      (k : Bytes) (m : List (Bytes × V)) {v : V}
      → assoc_find k m ≡ some v
      → (xs ys : List (Bytes × V)) × (m ≡ xs ++ (k, v) ∷ ys) × (assoc_del k m ≡ xs ++ ys)
  unfolding assoc_find assoc_del
  assoc_find-some k [] h = ground arith
  assoc_find-some k ((j, w) ∷ m) {v} h = elim (Bool-cases (str_eq j k)) [
    | inl e ↦ ([], m, ground (arith, str_eq_sound j k), ground arith)
    | inr e ↦
        let (xs, ys, p, q) = assoc_find-some k m {v = v} (ground arith) in
        ((j, w) ∷ xs, ys, ground arith, ground arith)
  ]

-- An association list behaves as the parameter does.
abbrev pub assoc : (V : Type 0) → Uthash V
assoc V = record {
  Table = List (Bytes × V);
  nil = [];
  entries = λ t. t;
  count = λ t. length t;
  add = λ k v t. t ++ (k, v) ∷ [];
  find = assoc_find;
  del = assoc_del;
  entries-nil = refl;
  entries-add = λ k v t. refl;
  count_lem = λ t. refl;
  find_none = λ k t h. assoc_find-none k t h;
  find_some = λ k t h. assoc_find-some k t h;
}
