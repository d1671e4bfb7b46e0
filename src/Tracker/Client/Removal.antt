-- ===== src/Tracker/Client/Removal.antt =====
-- What is left of a client that loses its last reference.
use mathlib.Core.Path.{subst}
use raiezau.Base.{
  ℕ, ◌-◌, ◌<◌, ◌≤◌, ◌≡◌, refl, sym, ap, ◌∙◌, Bool, true, false, ◌&&◌, ◌||◌, Option, none, some,
  List, [], ◌∷◌, ◌==◌, leb, arith, length, get_elem?, set, All, if◌then◌else◌, get_elem?-set_self,
  get_elem?-lt, get_elem?-of_lt, length-set,
}
use raiezau.Base.Bytes.{Bytes, str_eq}
use raiezau.Cutil.HashTable
use raiezau.Cutil.HashTable.Laws.{IsMap, get_entry-remove_entry}
use raiezau.Cutil.Uthash.{Uthash}
use raiezau.Tracker.Client.{
  remove_client_from_file_list, client_free, delete_client, client_dec_ref,
}
use raiezau.Tracker.File.{file_remove_client}
use raiezau.Tracker.State.{State, Client, load_client, store_client, >>=-some, load_client_lem}
use raiezau.Tracker.File.Peers.{
  member, peer_at, peer_at_same, IsTabled, cut_state, cut-IsTabled, cut_peers,
  file_remove_client_lem,
}

or_false : (b : Bool) → (b || false) ≡ b
or_false true = refl
or_false false = refl

-- one removal after another
both :
    {A : Type 0} (a b m : Bool) (o : Option A)
    → (if a && m then none else if a && b then none else o) ≡ (if a && (b || m) then none else o)
both false b m o = refl
both true false false o = refl
both true false true o = refl
both true true false o = refl
both true true true o = refl

module _ {u : Uthash ℕ} where
  -- The tables without the key in the files of the list.
  pub record Cleared (s t : State u) (key : Bytes) (files : List ℕ) : Type 0 where
    pub cells : t.client_at ≡ s.client_at
    pub registry : t.clients ≡ s.clients
    pub count : length t.files ≡ length s.files
    pub tabled : IsTabled t
    pub peers :
        (g : ℕ) (j : Bytes)
        → peer_at t g j ≡ (if str_eq key j && member g files then none else peer_at s g j)

  module _ (c : ℕ) (k : Client) (key : Bytes) (named : k.listen_addr_key ≡ some key) where
    pub remove_lem :
        (files : List ℕ) (s : State u)
        → get_elem? s.client_at c ≡ some (some k)
        → IsTabled s
        → All (λ f. f < length s.files) files
        → (t : State u) × (remove_client_from_file_list u c files s ≡ some (tt, t))
          × Cleared s t key files
    unfolding remove_client_from_file_list member
    remove_lem [] s live maps h = (
      s,
      refl,
      record {
        cells = refl;
        registry = refl;
        count = refl;
        tabled = maps;
        peers = λ g j. ground arith;
      },
    )
    remove_lem (f ∷ files) s live maps (lt, h) =
        let (x, at) = get_elem?-of_lt s.files f lt in
        let s1 = cut_state s f x key at maps in
        let same : length s1.files ≡ length s.files = length-set s.files f _ in
        let (t, e, c1) =
          remove_lem files s1 live (cut-IsTabled s f x key at maps)
            (subst (λ n. All (λ f. f < n) files) (sym same) h) in
        (
          t,
          >>=-some (file_remove_client u f c) _ s
                (file_remove_client_lem s f x key at maps c k live named)
              ∙ e,
          record {
            cells = c1.cells;
            registry = c1.registry;
            count = c1.count ∙ same;
            tabled = c1.tabled;
            peers = λ g j.
                c1.peers g j
                ∙ rw (cut_peers s f x key at maps g j, or_false (g == f))
                    (both (str_eq key j) (g == f) (member g files) (peer_at s g j));
          },
        )

    -- the state that `client_free` leaves behind two calls
    freed_peers :
        (s t w : State u) (seed leech : List ℕ)
        → Cleared s t key seed
        → Cleared t w key leech
        → (g : ℕ) (j : Bytes)
        → peer_at w g j
          ≡ (if str_eq key j && (member g seed || member g leech) then none else peer_at s g j)
    freed_peers s t w seed leech a b g j =
        b.peers g j
        ∙ rw (a.peers g j) (both (str_eq key j) (member g seed) (member g leech) (peer_at s g j))

    client_free_lem :
        (s : State u)
        → get_elem? s.client_at c ≡ some (some k)
        → IsTabled s
        → All (λ f. f < length s.files) k.files_seed
        → All (λ f. f < length s.files) k.files_leech
        → (t : State u) × (client_free u c s ≡ some (tt, t))
          × (get_elem? t.client_at c ≡ some none)
          × (t.clients ≡ s.clients)
          × IsTabled t
          × ((g : ℕ) (j : Bytes)
              → peer_at t g j ≡ (
                  if str_eq key j && (member g k.files_seed || member g k.files_leech)
                  then none
                  else peer_at s g j))
    unfolding client_free
    client_free_lem s live maps seeds leeches =
        let (t, e, a) = remove_lem k.files_seed s live maps seeds in
        let live' : get_elem? t.client_at c ≡ some (some k) =
          ap (λ l. get_elem? l c) a.cells ∙ live in
        let (w, e', b) =
          remove_lem k.files_leech t live' a.tabled
            (subst (λ n. All (λ f. f < n) k.files_leech) (sym a.count) leeches) in
        let at : get_elem? w.client_at c ≡ some (some k) =
          ap (λ l. get_elem? l c) b.cells ∙ live' in
        (
          record w { client_at = set w.client_at c none },
          >>=-some (load_client c) _ s (load_client_lem c s live)
              ∙ >>=-some (remove_client_from_file_list u c k.files_seed) _ s e
              ∙ >>=-some (remove_client_from_file_list u c k.files_leech) _ t e',
          get_elem?-set_self w.client_at c none (get_elem?-lt w.client_at c at),
          b.registry ∙ a.registry,
          b.tabled,
          λ g j.
              peer_at_same (record w { client_at = set w.client_at c none }) w g j refl
              ∙ freed_peers s t w k.files_seed k.files_leech a b g j,
        )

-- A client whose last reference is dropped, in a tracker whose tables have distinct keys: if the
-- files that it lists exist and it has announced its port, `client_dec_ref` frees it, takes it out of
-- the table of clients, and takes its address out of the tables of all the files that it lists. It
-- changes no other entry of these tables, and the keys of the files' tables stay distinct.
pub client_dec_ref_last :
    {u : Uthash ℕ} (c : ℕ) (k : Client) (key : Bytes) (s : State u)
    → get_elem? s.client_at c ≡ some (some k)
    → k.listen_addr_key ≡ some key
    → k.ref_count ≤ 1
    → IsMap u s.clients
    → IsTabled s
    → All (λ f. f < length s.files) k.files_seed
    → All (λ f. f < length s.files) k.files_leech
    → (t : State u) × (client_dec_ref u c s ≡ some (tt, t))
      × (get_elem? t.client_at c ≡ some none)
      × ((addr : Bytes)
          → HashTable.get_entry u t.clients addr
            ≡ (if str_eq k.conn_addr_key addr then none else HashTable.get_entry u s.clients addr))
      × IsTabled t
      × ((g : ℕ) (j : Bytes)
          → peer_at t g j ≡ (
              if str_eq key j && (member g k.files_seed || member g k.files_leech)
              then none
              else peer_at s g j))
unfolding client_dec_ref delete_client store_client
client_dec_ref_last {u} c k key s live named last distinct maps seeds leeches =
    let lower : Client = record k { ref_count = k.ref_count - 1 } in
    let s1 : State u = record s { client_at = set s.client_at c (some lower) } in
    let s2 : State u = record s1 {
      clients = (HashTable.remove_entry u s.clients k.conn_addr_key).0;
    } in
    let live1 : get_elem? s1.client_at c ≡ some (some lower) =
      get_elem?-set_self s.client_at c (some lower) (get_elem?-lt s.client_at c live) in
    let zero_left : leb (k.ref_count - 1) 0 ≡ true = ground arith in
    let (t, e, freed, registry, tabled, peers) =
      client_free_lem c lower key named s2 live1 maps seeds leeches in
    (
      t,
      >>=-some (load_client c) _ s (load_client_lem c s live)
          ∙ rw zero_left (>>=-some (load_client c) _ s1 (load_client_lem c s1 live1) ∙ e),
      freed,
      λ addr.
          ap (λ h. HashTable.get_entry u h addr) registry
          ∙ (get_entry-remove_entry u s.clients addr k.conn_addr_key distinct).0,
      tabled,
      λ g j. peers g j ∙ rw (peer_at_same s2 s g j refl) refl,
    )
