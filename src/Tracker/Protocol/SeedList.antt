-- ===== src/Tracker/Protocol/SeedList.antt =====
-- The list of files that the seeds of a request give.
use raiezau.Base.{
  map, false, ◌⊎◌, ap, ℕ, ◌%◌, ◌^◌, ◌<◌, ◌≡◌, refl, ◌∙◌, not, some, List, [], ◌∷◌, ◌==◌, arith,
  length, get_elem?, All, Bool-cases, inl, inr,
}
use raiezau.Base.Bytes.{Bytes, codes}
use raiezau.Cutil.Text.{string_split}
use raiezau.Cutil.Uthash.{Uthash}
use raiezau.Tracker.Env.{atoi, atol}
use raiezau.Tracker.File.{file_get_by_key, file_get_or_create}
use raiezau.Tracker.File.Peers.{IsTabled}
use raiezau.Tracker.File.Registry.{IsRegistry}
use raiezau.Tracker.Protocol.{seed_loop, get_seed_file_list}
use raiezau.Tracker.State.{State, File, >>=-some}
use raiezau.Tracker.Protocol.Seeds.{
  IsSized, IsMade, seed_keys, grouped, has_key, Grown, Grown-trans, get_or_create_lem,
}

module _ {u : Uthash ℕ} where
  -- What the words of a list of seeds give: the files of their keys, which are known before or made.
  pub record Named (s t : State u) (tab : List Bytes) (files : List ℕ) : Type 0 where
    pub grown : Grown s t
    pub inside : All (λ f. f < length t.files) files
    pub keys : map (file_get_by_key u t) (seed_keys tab) ≡ map some files
    pub kept : (j : Bytes) (g : ℕ) → file_get_by_key u s j ≡ some g → file_get_by_key u t j ≡ some g
    pub others :
        (j : Bytes)
        → has_key j (seed_keys tab) ≡ false
        → file_get_by_key u t j ≡ file_get_by_key u s j
    pub made :
        (g : ℕ) (y : File u)
        → get_elem? t.files g ≡ some y
        → (get_elem? s.files g ≡ some y) ⊎ IsMade u tab y

  nothing-Named :
      (s : State u) (tab : List Bytes)
      → seed_keys tab ≡ []
      → IsRegistry s
      → IsTabled s
      → Named s s tab []
  nothing-Named s tab e r maps = record {
    grown = record {
      registry = r;
      tabled = maps;
      cells = refl;
      longer = omega arith;
      peers = λ g j. refl;
    };
    inside = tt;
    keys = ap (map (file_get_by_key u s)) e;
    kept = λ j g h. h;
    others = λ j h. refl;
    made = λ g y h. inl h;
  }

  seed_loop_lem :
      (tab : List Bytes) (s : State u)
      → IsRegistry s
      → IsTabled s
      → IsSized tab
      → (l : List ℕ) × (t : State u) × (seed_loop u tab s ≡ some (l, t)) × Named s t tab l
  unfolding seed_loop seed_keys has_key
  seed_loop_lem [] s r maps h = ([], s, refl, nothing-Named s [] refl r maps)
  seed_loop_lem (a ∷ []) s r maps h = ([], s, refl, nothing-Named s (a ∷ []) refl r maps)
  seed_loop_lem (a ∷ b ∷ []) s r maps h = ([], s, refl, nothing-Named s (a ∷ b ∷ []) refl r maps)
  seed_loop_lem (a ∷ b ∷ c ∷ []) s r maps h =
      ([], s, refl, nothing-Named s (a ∷ b ∷ c ∷ []) refl r maps)
  seed_loop_lem (name ∷ size ∷ piece ∷ key ∷ tab) s r maps (nz, h) =
      let (f, s1, e, g, lt, got) =
        get_or_create_lem name (atol size % 2 ^ 32) (atoi piece) key s r maps nz in
      let (l, t, e', n) = seed_loop_lem tab s1 g.registry g.tabled h in
      let wide = n.grown.longer in
      (
        f ∷ l,
        t,
        >>=-some (file_get_or_create u name (atol size % 2 ^ 32) (atoi piece) key) _ s e
            ∙ >>=-some (seed_loop u tab) _ s1 e',
        record {
          grown = Grown-trans s s1 t g n.grown;
          inside = (omega arith, n.inside);
          keys = rw (n.kept key f got.key_found, n.keys) refl;
          kept = λ j i known. n.kept j i (got.kept j i known);
          others = λ j lacks. n.others j (ground arith) ∙ got.others j (ground arith);
          made = λ i y at. elim (n.made i y at) [
            | inl old ↦ elim (got.made i y old) [ inl older ↦ inl older | inr is ↦ inr (inl is) ]
            | inr is ↦ inr (inr is)
          ];
        },
      )

  pub get_seed_file_list_lem :
      (str : Bytes) (s : State u)
      → IsRegistry s
      → IsTabled s
      → IsSized (string_split str (codes " "))
      → (l : List ℕ) × (t : State u) × (get_seed_file_list u str s ≡ some (l, t))
        × Named s t (grouped (string_split str (codes " "))) l
  unfolding get_seed_file_list grouped seed_keys
  get_seed_file_list_lem str s r maps h =
      let tab = string_split str (codes " ") in
      elim (Bool-cases (not (length tab % 4 == 0))) [
        | inl e ↦ (
          [],
          s,
          rw (get_seed_file_list, e) refl,
          rw (grouped, e) (nothing-Named s [] refl r maps),
        )
        | inr e ↦
            let (l, t, e', n) = seed_loop_lem tab s r maps h in
            (l, t, rw (get_seed_file_list, e) e', rw (grouped, e) n)
      ]
