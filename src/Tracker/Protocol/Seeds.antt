-- ===== src/Tracker/Protocol/Seeds.antt =====
-- The lists of files that a request names: the files that they give exist.
use raiezau.Base.{
  map, Bool, false, Option, ◌⊎◌, ap, ◌||◌, if◌then◌else◌, ℕ, ◌+◌, ◌%◌, ◌^◌, ◌<◌, ◌≤◌, ◌≡◌, ◌≢◌,
  refl, sym, ◌∙◌, not, none, some, List, [], ◌∷◌, ◌++◌, ◌==◌, arith, length, length-append,
  get_elem?, get_elem?-append_left, get_elem?-snoc, get_elem?-lt, All, Bool-cases, Option-cases,
  inl, inr,
}
use raiezau.Base.Bytes.{Bytes, str_eq, str_eq_sound, str_eq_refl}
use raiezau.Cutil.HashTable
use raiezau.Cutil.HashTable.Keys.{lookup}
use raiezau.Cutil.HashTable.Laws.{get_entry-lookup}
use raiezau.Cutil.Uthash.{Uthash}
use raiezau.Tracker.Env.{atoi, atol}
use raiezau.Tracker.File.{file_get_by_key, file_get_or_create, new_object}
use raiezau.Tracker.File.Peers.{peer_at, peer_at_same, IsTabled}
use raiezau.Tracker.File.Registry.{IsRegistry, file_get_or_create_new}
use raiezau.Tracker.Protocol.{leech_loop}
use raiezau.Tracker.State.{State, File}

-- No group of four has a piece size that reads as 0.
abbrev pub IsSized : List Bytes → Type 0
IsSized (name ∷ size ∷ piece ∷ key ∷ tab) = (atoi piece ≢ 0) × IsSized tab
IsSized _ = Unit {0}

-- The keys of the groups of four that a list of seeds has.
unfoldable pub seed_keys : List Bytes → List Bytes
seed_keys (name ∷ size ∷ piece ∷ key ∷ tab) = key ∷ seed_keys tab
seed_keys _ = []

-- The words of a list of seeds; a list that is not in groups of four has none.
unfoldable pub grouped : List Bytes → List Bytes
grouped tab = if not (length tab % 4 == 0) then [] else tab

unfoldable pub has_key : Bytes → List Bytes → Bool
has_key j [] = false
has_key j (k ∷ ks) = str_eq k j || has_key j ks

-- What was found.
unfoldable pub found : List (Option ℕ) → List ℕ
found [] = []
found (none ∷ os) = found os
found (some f ∷ os) = f ∷ found os

-- The file is a new one with the name, the size, the piece size and the key of a group.
abbrev pub IsMade : (u : Uthash ℕ) → List Bytes → File u → Type 0
IsMade u (name ∷ size ∷ piece ∷ key ∷ tab) x =
    (x ≡ new_object u name (atol size % 2 ^ 32) (atoi piece) key) ⊎ IsMade u tab x
IsMade u _ x = ⊥

get-nil : (u : Uthash ℕ) (j : Bytes) → HashTable.get_entry u u.nil j ≡ none
get-nil u j =
    get_entry-lookup u u.nil j (rw u.entries-nil tt) ∙ rw u.entries-nil (unfold lookup in refl)

module _ {u : Uthash ℕ} where
  -- The registry with more files in it, which have no clients yet.
  pub record Grown (s t : State u) : Type 0 where
    pub registry : IsRegistry t
    pub tabled : IsTabled t
    pub cells : t.client_at ≡ s.client_at
    pub longer : length s.files ≤ length t.files
    pub peers : (g : ℕ) (j : Bytes) → peer_at t g j ≡ peer_at s g j

  pub Grown-trans : (s t w : State u) → Grown s t → Grown t w → Grown s w
  Grown-trans s t w a b = record {
    registry = b.registry;
    tabled = b.tabled;
    cells = b.cells ∙ a.cells;
    longer = omega (arith, a.longer, b.longer);
    peers = λ g j. b.peers g j ∙ a.peers g j;
  }

  -- a file without clients behind the others
  module _ (s t : State u) (x : File u) (empty : x.clients ≡ u.nil)
      (files : t.files ≡ s.files ++ x ∷ []) where
    snoc-IsTabled : IsTabled s → IsTabled t
    snoc-IsTabled maps g y e = elim (get_elem?-snoc s.files x g (rw files at e)) [
      | inl old ↦ maps g y old
      | inr (at, new) ↦ rw (new, empty, u.entries-nil) tt
    ]

    snoc_peers : (g : ℕ) (j : Bytes) → peer_at t g j ≡ peer_at s g j
    unfolding peer_at
    snoc_peers g j = elim (Option-cases (get_elem? s.files g)) [
      | inr (y, old) ↦
          peer_at_same t s g j (rw files (get_elem?-append_left s.files _ g old) ∙ sym old)
      | inl gone ↦ elim (Option-cases (get_elem? t.files g)) [
        | inl e ↦ peer_at_same t s g j (e ∙ sym gone)
        | inr (y, e) ↦ elim (get_elem?-snoc s.files x g (rw files at e)) [
          | inl old ↦ ground arith
          | inr (at, new) ↦ rw (peer_at, e, gone, new, empty) (get-nil u j)
        ]
      ]
    ]

  pub leech_loop_lem :
      (s : State u) (tab : List Bytes)
      → IsRegistry s
      → All (λ f. f < length s.files) (leech_loop u s tab)
  unfolding leech_loop
  leech_loop_lem s [] r = tt
  leech_loop_lem s (key ∷ tab) r = elim (Option-cases (file_get_by_key u s key)) [
    | inl e ↦ rw (leech_loop, e) (leech_loop_lem s tab r)
    | inr (f, e) ↦
        let (x, at, _) = r.sound key f e in
        rw (leech_loop, e) (get_elem?-lt s.files f at, leech_loop_lem s tab r)
  ]

  pub leech_loop-found :
      (s : State u) (tab : List Bytes) → leech_loop u s tab ≡ found (map (file_get_by_key u s) tab)
  unfolding leech_loop found
  leech_loop-found s [] = refl
  leech_loop-found s (key ∷ tab) = elim (Option-cases (file_get_by_key u s key)) [
    | inl e ↦ rw (leech_loop, e) (leech_loop-found s tab)
    | inr (f, e) ↦ rw (leech_loop, e) (ap (λ l. f ∷ l) (leech_loop-found s tab))
  ]

  -- A key has its file, which was known or is the new object `x`.
  pub record Got (s t : State u) (f : ℕ) (key : Bytes) (x : File u) : Type 0 where
    pub key_found : file_get_by_key u t key ≡ some f
    pub kept : (j : Bytes) (g : ℕ) → file_get_by_key u s j ≡ some g → file_get_by_key u t j ≡ some g
    pub others : (j : Bytes) → str_eq key j ≡ false → file_get_by_key u t j ≡ file_get_by_key u s j
    pub made :
        (g : ℕ) (y : File u)
        → get_elem? t.files g ≡ some y
        → (get_elem? s.files g ≡ some y) ⊎ (y ≡ x)

  pub get_or_create_lem :
      (name : Bytes) (size piece : ℕ) (key : Bytes) (s : State u)
      → IsRegistry s
      → IsTabled s
      → piece ≢ 0
      → (f : ℕ) × (t : State u) × (file_get_or_create u name size piece key s ≡ some (f, t))
        × Grown s t
        × (f < length t.files)
        × Got s t f key (new_object u name size piece key)
  unfolding file_get_or_create
  get_or_create_lem name size piece key s r maps nz =
      elim (Option-cases (file_get_by_key u s key)) [
        | inr (f, e) ↦
            let (x, at, _) = r.sound key f e in
            (
              f,
              s,
              rw (file_get_or_create, e) refl,
              record {
                registry = r;
                tabled = maps;
                cells = refl;
                longer = omega arith;
                peers = λ g j. refl;
              },
              get_elem?-lt s.files f at,
              record {
                key_found = e;
                kept = λ j g h. h;
                others = λ j h. refl;
                made = λ g y h. inl h;
              },
            )
        | inl e ↦
            let (t, made, r', cells, files, keys) =
              file_get_or_create_new u name size piece key s r e nz in
            let x = new_object u name size piece key in
            let empty : x.clients ≡ u.nil = unfold new_object HashTable.create in refl in
            let longer : length t.files ≡ length s.files + 1 =
              rw files (length-append s.files (x ∷ [])) in
            (
              length s.files,
              t,
              made,
              record {
                registry = r';
                tabled = snoc-IsTabled s t x empty files maps;
                cells = cells;
                longer = omega arith;
                peers = snoc_peers s t x empty files;
              },
              omega arith,
              record {
                key_found = let self = str_eq_refl key in keys key ∙ rw self refl;
                kept = λ j g h. elim (Bool-cases (str_eq key j)) [
                  | inl same ↦
                      let eq : key ≡ j = str_eq_sound key j same in
                      let no : none ≡ some g = sym e ∙ ap (file_get_by_key u s) eq ∙ h in
                      ground arith
                  | inr other ↦ keys j ∙ rw other h
                ];
                others = λ j h. keys j ∙ rw h refl;
                made = λ g y h. elim (get_elem?-snoc s.files x g (rw files at h)) [
                  | inl old ↦ inl old
                  | inr (_, new) ↦ inr new
                ];
              },
            )
      ]
