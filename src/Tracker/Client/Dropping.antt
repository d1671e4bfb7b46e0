-- ===== src/Tracker/Client/Dropping.antt =====
-- `client_dec_ref` returns, whether or not it drops the last reference.
use mathlib.Core.Path.{subst}
use raiezau.Base.{
  ℕ, ◌-◌, ◌<◌, ◌≡◌, ◌≢◌, refl, sym, ap, ◌∙◌, ◌⊎◌, none, some, [], leb, length, get_elem?, set, All,
  Bool-cases, inl, inr, get_elem?-set_self, get_elem?-set_ne, get_elem?-lt,
}
use raiezau.Base.Bytes.{Bytes}
use raiezau.Cutil.HashTable
use raiezau.Cutil.Uthash.{Uthash}
use raiezau.Tracker.Client.{
  remove_client_from_file_list, client_free, delete_client, client_dec_ref,
}
use raiezau.Tracker.Client.Removal.{remove_lem}
use raiezau.Tracker.File.Peers.{IsTabled}
use raiezau.Tracker.State.{State, Client, load_client, store_client, >>=-some, load_client_lem}

module _ {u : Uthash ℕ} where
  -- A client that lists no files, or has announced its port and lists files that exist.
  abbrev pub IsListed : State u → Client → Type 0
  IsListed s k =
      ((k.files_seed ≡ []) × (k.files_leech ≡ []))
      ⊎ ((key : Bytes) × (k.listen_addr_key ≡ some key)
          × All (λ f. f < length s.files) k.files_seed
          × All (λ f. f < length s.files) k.files_leech)

  -- All other clients are as they were, no file is gone, and the tables are in order.
  pub record Spares (c : ℕ) (s t : State u) : Type 0 where
    pub others : (d : ℕ) → c ≢ d → get_elem? t.client_at d ≡ get_elem? s.client_at d
    pub count : length t.files ≡ length s.files
    pub tabled : IsTabled t

  client_free_lem :
      (c : ℕ) (k : Client) (s : State u)
      → get_elem? s.client_at c ≡ some (some k)
      → IsTabled s
      → IsListed s k
      → (t : State u) × (client_free u c s ≡ some (tt, t)) × Spares c s t
  unfolding client_free remove_client_from_file_list
  client_free_lem c k s at maps (inl (seed, leech)) = (
    record s { client_at = set s.client_at c none },
    >>=-some (load_client c) _ s (load_client_lem c s at) ∙ rw (seed, leech) refl,
    record {
      others = λ d ne. get_elem?-set_ne s.client_at c d none ne;
      count = refl;
      tabled = maps;
    },
  )
  client_free_lem c k s at maps (inr (key, named, seeds, leeches)) =
      let (t, e, a) = remove_lem c k key named k.files_seed s at maps seeds in
      let at' : get_elem? t.client_at c ≡ some (some k) = ap (λ l. get_elem? l c) a.cells ∙ at in
      let (w, e', b) =
        remove_lem c k key named k.files_leech t at' a.tabled
          (subst (λ n. All (λ f. f < n) k.files_leech) (sym a.count) leeches) in
      (
        record w { client_at = set w.client_at c none },
        >>=-some (load_client c) _ s (load_client_lem c s at)
            ∙ >>=-some (remove_client_from_file_list u c k.files_seed) _ s e
            ∙ >>=-some (remove_client_from_file_list u c k.files_leech) _ t e',
        record {
          others = λ d ne.
              get_elem?-set_ne w.client_at c d none ne
              ∙ ap (λ l. get_elem? l d) (b.cells ∙ a.cells);
          count = b.count ∙ a.count;
          tabled = b.tabled;
        },
      )

  module _ (c : ℕ) (k : Client) (s : State u) (at : get_elem? s.client_at c ≡ some (some k)) where
    abbrev lower : Client
    lower = record k { ref_count = k.ref_count - 1 }

    abbrev lowered : State u
    lowered = record s { client_at = set s.client_at c (some lower) }

    at_lowered : get_elem? lowered.client_at c ≡ some (some lower)
    at_lowered = get_elem?-set_self s.client_at c (some lower) (get_elem?-lt s.client_at c at)

    lowered-others : (d : ℕ) → c ≢ d → get_elem? lowered.client_at d ≡ get_elem? s.client_at d
    lowered-others d ne = get_elem?-set_ne s.client_at c d (some lower) ne

    -- On a client that was not freed `client_dec_ref` returns, and spares the others.
    pub client_dec_ref_lem :
        IsTabled s
        → IsListed s k
        → (t : State u) × (client_dec_ref u c s ≡ some (tt, t)) × Spares c s t
    unfolding client_dec_ref delete_client store_client
    client_dec_ref_lem maps listed = elim (Bool-cases (leb (k.ref_count - 1) 0)) [
      | inr e ↦ (
        lowered,
        >>=-some (load_client c) _ s (load_client_lem c s at) ∙ rw e refl,
        record { others = lowered-others; count = refl; tabled = maps },
      )
      | inl e ↦
          let s2 : State u = record lowered {
            clients = (HashTable.remove_entry u s.clients k.conn_addr_key).0;
          } in
          let (t, freed, spares) = client_free_lem c lower s2 at_lowered maps listed in
          (
            t,
            >>=-some (load_client c) _ s (load_client_lem c s at)
                ∙ rw e (
                    >>=-some (load_client c) _ lowered (load_client_lem c lowered at_lowered)
                    ∙ freed),
            record {
              others = λ d ne. spares.others d ne ∙ lowered-others d ne;
              count = spares.count;
              tabled = spares.tabled;
            },
          )
    ]
