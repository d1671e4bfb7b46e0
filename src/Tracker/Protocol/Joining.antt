-- ===== src/Tracker/Protocol/Joining.antt =====
-- An `announce` or `update` puts the client into the tables of all the files that it names.
use mathlib.Core.Path.{subst}
use raiezau.Base.{
  map, ◌⊎◌, ℕ, ◌<◌, ◌≡◌, refl, sym, ap, ◌∙◌, Bool, true, false, ◌&&◌, ◌||◌, Option, none, some,
  List, [], ◌∷◌, ◌==◌, arith, length, get_elem?, set, All, if◌then◌else◌, get_elem?-set_self,
  get_elem?-lt, get_elem?-of_lt, length-set,
}
use raiezau.Base.Bytes.{Bytes, codes, str_eq}
use raiezau.Cutil.HashTable
use raiezau.Cutil.Text.{string_split}
use raiezau.Cutil.Uthash.{Uthash}
use raiezau.Tracker.File.{file_add_client, file_get_by_key}
use raiezau.Tracker.File.Peers.{
  member, or_else, peer_at, peer_at_same, IsTabled, join_state, join-IsTabled, join_peers,
  file_add_client_lem,
}
use raiezau.Tracker.Protocol.{
  substring, leech_loop, get_seed_file_list, get_leech_file_list, set_files, add_client_to_files,
  seed_leech_match_and_parse,
}
use raiezau.Tracker.Protocol.Seeds.{
  IsSized, IsMade, seed_keys, grouped, has_key, found, leech_loop_lem, leech_loop-found,
}
use raiezau.Tracker.Protocol.SeedList.{get_seed_file_list_lem}
use raiezau.Tracker.File.Registry.{IsRegistry}
use raiezau.Tracker.State.{
  State, Client, File, >>=-some, load_client, load_client_lem, store_client,
}

or_else_twice : (o : Option ℕ) (c : ℕ) → or_else (or_else o c) c ≡ or_else o c
unfolding or_else
or_else_twice none c = refl
or_else_twice (some d) c = refl

-- one entry after another
both :
    (a b m : Bool) (o : Option ℕ) (c : ℕ)
    → (if a && m
        then or_else (if a && b then or_else o c else o) c
        else if a && b
        then or_else o c
        else o)
      ≡ (if a && (b || m) then or_else o c else o)
both false b m o c = refl
both true false m o c = refl
both true true false o c = refl
both true true true o c = or_else_twice o c

or_false : (b : Bool) → (b || false) ≡ b
or_false true = refl
or_false false = refl

module _ {u : Uthash ℕ} where
  -- The tables with the client under the key in the files of the list.
  record Joined (s t : State u) (key : Bytes) (c : ℕ) (files : List ℕ) : Type 0 where
    cells : t.client_at ≡ s.client_at
    bindings : t.file_by_hash ≡ s.file_by_hash
    count : length t.files ≡ length s.files
    tabled : IsTabled t
    peers :
        (g : ℕ) (j : Bytes)
        → peer_at t g j
          ≡ (if str_eq key j && member g files then or_else (peer_at s g j) c else peer_at s g j)

  module _ (c : ℕ) (k : Client) (key : Bytes) (named : k.listen_addr_key ≡ some key) where
    add_lem :
        (files : List ℕ) (s : State u)
        → get_elem? s.client_at c ≡ some (some k)
        → IsTabled s
        → All (λ f. f < length s.files) files
        → (t : State u) × (add_client_to_files u c files s ≡ some (tt, t)) × Joined s t key c files
    unfolding add_client_to_files member
    add_lem [] s live maps h = (
      s,
      refl,
      record {
        cells = refl;
        bindings = refl;
        count = refl;
        tabled = maps;
        peers = λ g j. ground arith;
      },
    )
    add_lem (f ∷ files) s live maps (lt, h) =
        let (x, at) = get_elem?-of_lt s.files f lt in
        let s1 = join_state s f x key at maps c in
        let same : length s1.files ≡ length s.files = length-set s.files f _ in
        let (t, e, c1) =
          add_lem files s1 live (join-IsTabled s f x key at maps c)
            (subst (λ n. All (λ f. f < n) files) (sym same) h) in
        (
          t,
          >>=-some (file_add_client u f c) _ s
                (file_add_client_lem s f x key at maps c k live named)
              ∙ e,
          record {
            cells = c1.cells;
            bindings = c1.bindings;
            count = c1.count ∙ same;
            tabled = c1.tabled;
            peers = λ g j.
                c1.peers g j
                ∙ rw (join_peers s f x key at maps c g j, or_false (g == f))
                    (both (str_eq key j) (g == f) (member g files) (peer_at s g j) c);
          },
        )

    join_lem :
        (seed leech : List ℕ) (s : State u)
        → get_elem? s.client_at c ≡ some (some k)
        → IsTabled s
        → All (λ f. f < length s.files) seed
        → All (λ f. f < length s.files) leech
        → (t w : State u) × (add_client_to_files u c seed s ≡ some (tt, t))
          × (add_client_to_files u c leech t ≡ some (tt, w))
          × (w.client_at ≡ s.client_at)
          × (w.file_by_hash ≡ s.file_by_hash)
          × IsTabled w
          × ((g : ℕ) (j : Bytes)
              → peer_at w g j ≡ (
                  if str_eq key j && (member g seed || member g leech)
                  then or_else (peer_at s g j) c
                  else peer_at s g j))
    join_lem seed leech s live maps seeds leeches =
        let (t, e, a) = add_lem seed s live maps seeds in
        let live' : get_elem? t.client_at c ≡ some (some k) =
          ap (λ l. get_elem? l c) a.cells ∙ live in
        let (w, e', b) =
          add_lem leech t live' a.tabled
            (subst (λ n. All (λ f. f < n) leech) (sym a.count) leeches) in
        (
          t,
          w,
          e,
          e',
          b.cells ∙ a.cells,
          b.bindings ∙ a.bindings,
          b.tabled,
          λ g j.
              b.peers g j
              ∙ rw (a.peers g j)
                  (both (str_eq key j) (member g seed) (member g leech) (peer_at s g j) c),
        )

by_key_same :
    {u : Uthash ℕ} (t s : State u)
    → t.file_by_hash ≡ s.file_by_hash
    → file_get_by_key u t ≡ file_get_by_key u s
unfolding file_get_by_key
by_key_same {u} t s e = ap (HashTable.get_entry u) e

-- A request of a client that has announced its port, in a tracker whose registry holds each file
-- once and whose tables have distinct keys: if no seed has a piece size that reads as 0, then the
-- request is carried out. The files of the seeds are those that their keys now give, in order, where a
-- list that is not in groups of four has none; the files of the leeches are those of the keys that
-- are known. A key that gave a file still gives it, one that is not in the seeds gives what it gave,
-- and every file is an old one or was made from the name, the sizes and the key of a seed. The
-- client's lists of files become these two, and in the table of each listed file the client stands
-- under its address, unless another one stood there before. No other entry of a table changes, and
-- the keys of the tables stay distinct.
pub seed_leech_match_and_parse_lem :
    {u : Uthash ℕ} (c : ℕ) (k : Client) (key req : Bytes) (m₁ m₂ : ℕ × ℕ) (s : State u)
    → get_elem? s.client_at c ≡ some (some k)
    → k.listen_addr_key ≡ some key
    → IsRegistry s
    → IsTabled s
    → IsSized (string_split (substring req m₁) (codes " "))
    → let seeds = grouped (string_split (substring req m₁) (codes " ")) in
      let leeches = string_split (substring req m₂) (codes " ") in
      (seed leech : List ℕ) × (s₁ t : State u) × (get_seed_file_list u (substring req m₁) s
        ≡ some (seed, s₁))
      × (seed_leech_match_and_parse u c req m₁ m₂ s ≡ some (tt, t))
      × (map (file_get_by_key u t) (seed_keys seeds) ≡ map some seed)
      × (leech ≡ found (map (file_get_by_key u t) leeches))
      × ((j : Bytes) (g : ℕ) → file_get_by_key u s j ≡ some g → file_get_by_key u t j ≡ some g)
      × ((j : Bytes)
          → has_key j (seed_keys seeds) ≡ false
          → file_get_by_key u t j ≡ file_get_by_key u s j)
      × ((g : ℕ) (y : File u)
          → get_elem? s₁.files g ≡ some y
          → (get_elem? s.files g ≡ some y) ⊎ IsMade u seeds y)
      × (get_elem? t.client_at c
          ≡ some (some (record k { files_seed = seed; files_leech = leech })))
      × IsTabled t
      × ((g : ℕ) (j : Bytes)
          → peer_at t g j ≡ (
              if str_eq key j && (member g seed || member g leech)
              then or_else (peer_at s g j) c
              else peer_at s g j))
unfolding seed_leech_match_and_parse get_leech_file_list set_files store_client
seed_leech_match_and_parse_lem {u} c k key req m₁ m₂ s live named registry maps sized =
    let (seed, s₁, read, n) = get_seed_file_list_lem (substring req m₁) s registry maps sized in
    let g = n.grown in
    let leeches = string_split (substring req m₂) (codes " ") in
    let leech = leech_loop u s₁ leeches in
    let live₁ : get_elem? s₁.client_at c ≡ some (some k) = ap (λ l. get_elem? l c) g.cells ∙ live in
    let listing : Client = record k { files_seed = seed; files_leech = leech } in
    let s₂ : State u = record s₁ { client_at = set s₁.client_at c (some listing) } in
    let live₂ : get_elem? s₂.client_at c ≡ some (some listing) =
      get_elem?-set_self s₁.client_at c (some listing) (get_elem?-lt s₁.client_at c live₁) in
    let (t, w, e, e', cells, bindings, tabled, peers) =
      join_lem c listing key named seed leech s₂ live₂ g.tabled n.inside
        (leech_loop_lem s₁ leeches g.registry) in
    let same : file_get_by_key u w ≡ file_get_by_key u s₁ = by_key_same w s₁ bindings in
    (
      seed,
      leech,
      s₁,
      w,
      read,
      >>=-some (get_seed_file_list u (substring req m₁)) _ s read
          ∙ >>=-some (set_files u c seed leech) _ s₁
              (>>=-some (load_client c) _ s₁ (load_client_lem c s₁ live₁))
          ∙ >>=-some (add_client_to_files u c seed) _ s₂ e
          ∙ e',
      rw same n.keys,
      rw same (leech_loop-found s₁ leeches),
      rw same n.kept,
      rw same n.others,
      n.made,
      ap (λ l. get_elem? l c) cells ∙ live₂,
      tabled,
      λ f j. peers f j ∙ rw (peer_at_same s₂ s₁ f j refl, g.peers f j) refl,
    )
