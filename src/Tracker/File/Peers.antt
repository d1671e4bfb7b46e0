-- ===== src/Tracker/File/Peers.antt =====
-- The tables of the files, which `file_add_client` and `file_remove_client` change.
use mathlib.Core.Path.{subst}
use raiezau.Base.{
  ℕ, ◌≡◌, ◌≢◌, refl, sym, ap, ◌∙◌, Bool, true, false, ◌&&◌, ◌||◌, Option, none, some, List, [], ◌∷◌,
  ◌==◌, arith, get_elem?, set, if◌then◌else◌, Bool-cases, Option-cases, inl, inr,
  get_elem?-set_self, get_elem?-set_ne, get_elem?-lt,
}
use raiezau.Base.Bytes.{Bytes, str_eq, str_eq_iff}
use raiezau.Cutil.HashTable
use raiezau.Cutil.HashTable.Laws.{
  IsMap, remove_entry-IsMap, get_entry-remove_entry, add_unique_entry-IsMap,
  get_entry-add_unique_entry, has_entry-none, has_entry-some,
}
use raiezau.Cutil.Uthash.{Uthash}
use raiezau.Tracker.File.{file_remove_client, file_add_client}
use raiezau.Tracker.State.{
  State, Client, File, load_client, load_file, store_file, non_null, >>=-some, load_client_lem,
  load_file_lem,
}

-- Whether a file is in a list.
unfoldable pub member : ℕ → List ℕ → Bool
member g [] = false
member g (f ∷ files) = g == f || member g files

-- The client under a key, or else this one.
unfoldable pub or_else : Option ℕ → ℕ → Option ℕ
or_else none c = some c
or_else (some d) c = some d

module _ {u : Uthash ℕ} where
  -- The client that a file's table has under a key.
  unfoldable pub peer_at : State u → ℕ → Bytes → Option ℕ
  peer_at s g key = elim (get_elem? s.files g) [
    | none ↦ none
    | some x ↦ HashTable.get_entry u x.clients key
  ]

  peer_at_file :
      (s : State u) (g : ℕ) (j : Bytes) {x : File u}
      → get_elem? s.files g ≡ some x
      → peer_at s g j ≡ HashTable.get_entry u x.clients j
  unfolding peer_at
  peer_at_file s g j e = rw (peer_at, e) refl

  pub peer_at_same :
      (s t : State u) (g : ℕ) (j : Bytes)
      → get_elem? s.files g ≡ get_elem? t.files g
      → peer_at s g j ≡ peer_at t g j
  unfolding peer_at
  peer_at_same s t g j e = rw (peer_at, e) refl

  -- The tables of the files have distinct keys.
  abbrev pub IsTabled : State u → Type 0
  IsTabled s = (g : ℕ) (x : File u) → get_elem? s.files g ≡ some x → IsMap u x.clients

  module _ (s : State u) (f : ℕ) (x : File u) (h : u.Table) (at : get_elem? s.files f ≡ some x)
      (maps : IsTabled s) where
    abbrev new_file : File u
    new_file = record x { clients = h }

    -- The state with another table in the file.
    abbrev pub with_table : State u
    with_table = record s { files = set s.files f new_file }

    new_at : get_elem? with_table.files f ≡ some new_file
    new_at = get_elem?-set_self s.files f new_file (get_elem?-lt s.files f at)

    with_table-IsTabled : IsMap u h → IsTabled with_table
    with_table-IsTabled map g y e = elim (Bool-cases (f == g)) [
      | inl same ↦
          let eq : f ≡ g = ground arith in
          let one : some new_file ≡ some y = sym new_at ∙ ap (get_elem? with_table.files) eq ∙ e in
          let file_of : Option (File u) → File u = λ o. elim o [ none ↦ new_file | some z ↦ z ] in
          subst (λ z. IsMap u z.clients) (ap file_of one) map
      | inr other ↦
          let ne : f ≢ g = λ p. ground arith in
          maps g y (sym (get_elem?-set_ne s.files f g new_file ne) ∙ e)
    ]

    with_table_peers :
        (g : ℕ) (j : Bytes)
        → peer_at with_table g j ≡ (if g == f then HashTable.get_entry u h j else peer_at s g j)
    with_table_peers g j = elim (Bool-cases (g == f)) [
      | inl same ↦
          let eq : g ≡ f = ground arith in rw (same, eq) (peer_at_file with_table f j new_at)
      | inr other ↦
          let ne : f ≢ g = λ p. ground arith in
          rw other (peer_at_same with_table s g j (get_elem?-set_ne s.files f g new_file ne))
    ]

  module _ (s : State u) (f : ℕ) (x : File u) (key : Bytes) (at : get_elem? s.files f ≡ some x)
      (maps : IsTabled s) where
    abbrev pub cut_state : State u
    cut_state = with_table s f x (HashTable.remove_entry u x.clients key).0 at maps

    pub cut-IsTabled : IsTabled cut_state
    cut-IsTabled =
        with_table-IsTabled s f x _ at maps (remove_entry-IsMap u x.clients key (maps f x at))

    here : (g : ℕ) (j : Bytes) → (g == f) ≡ true → peer_at s g j ≡ HashTable.get_entry u x.clients j
    here g j same = let eq : g ≡ f = ground arith in rw eq (peer_at_file s f j at)

    pub cut_peers :
        (g : ℕ) (j : Bytes)
        → peer_at cut_state g j
          ≡ (if str_eq key j && member g (f ∷ []) then none else peer_at s g j)
    unfolding member
    cut_peers g j = with_table_peers s f x _ at maps g j ∙ elim (Bool-cases (g == f)) [
      | inl same ↦
          rw (same, here g j same)
            ((get_entry-remove_entry u x.clients j key (maps f x at)).0 ∙ ground arith)
      | inr other ↦ rw (other, member) (ground arith)
    ]

    pub file_remove_client_lem :
        (c : ℕ) (k : Client)
        → get_elem? s.client_at c ≡ some (some k)
        → k.listen_addr_key ≡ some key
        → file_remove_client u f c s ≡ some (tt, cut_state)
    unfolding file_remove_client store_file non_null
    file_remove_client_lem c k live named =
        >>=-some (load_file f) _ s (load_file_lem f s at)
        ∙ >>=-some (load_client c) _ s (load_client_lem c s live)
        ∙ rw named refl

    module _ (c : ℕ) where
      abbrev pub join_state : State u
      join_state = with_table s f x (HashTable.add_unique_entry u x.clients key c).0 at maps

      pub join-IsTabled : IsTabled join_state
      join-IsTabled =
          with_table-IsTabled s f x _ at maps
            (add_unique_entry-IsMap u x.clients key c (maps f x at))

      join_entry :
          (j : Bytes)
          → HashTable.get_entry u (HashTable.add_unique_entry u x.clients key c).0 j ≡ (
              if str_eq key j
              then or_else (HashTable.get_entry u x.clients j) c
              else HashTable.get_entry u x.clients j)
      unfolding or_else
      join_entry j =
          (get_entry-add_unique_entry u x.clients j key c (maps f x at)).0
          ∙ elim (Bool-cases (str_eq key j)) [
            | inr other ↦ rw other refl
            | inl same ↦
                let eq : key ≡ j = (str_eq_iff key j).0 same in
                elim (Option-cases (HashTable.get_entry u x.clients key)) [
                  | inl e ↦ rw (same, has_entry-none u x.clients key e, ← eq, e) refl
                  | inr (d, e) ↦ rw (same, has_entry-some u x.clients key e, ← eq, e) refl
                ]
          ]

      pub join_peers :
          (g : ℕ) (j : Bytes)
          → peer_at join_state g j ≡ (
              if str_eq key j && member g (f ∷ [])
              then or_else (peer_at s g j) c
              else peer_at s g j)
      unfolding member
      join_peers g j = with_table_peers s f x _ at maps g j ∙ elim (Bool-cases (g == f)) [
        | inl same ↦ rw (same, here g j same) (join_entry j ∙ ground arith)
        | inr other ↦ rw (other, member) (ground arith)
      ]

      pub file_add_client_lem :
          (k : Client)
          → get_elem? s.client_at c ≡ some (some k)
          → k.listen_addr_key ≡ some key
          → file_add_client u f c s ≡ some (tt, join_state)
      unfolding file_add_client store_file non_null
      file_add_client_lem k live named =
          >>=-some (load_file f) _ s (load_file_lem f s at)
          ∙ >>=-some (load_client c) _ s (load_client_lem c s live)
          ∙ rw named refl
