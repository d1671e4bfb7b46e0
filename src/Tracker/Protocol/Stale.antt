-- ===== src/Tracker/Protocol/Stale.antt =====
-- A client that is deleted stays in the tables of the files that its last `update` no longer names.
use raiezau.Base.{
  ℕ, ◌-◌, ◌≤◌, ◌<◌, ◌≡◌, ◌≢◌, refl, ap, ◌∙◌, true, none, some, List, [], ◌∷◌, ◌++◌, arith, length,
  leb, get_elem?, set, Option-cases, inl, inr, get_elem?-set_self, get_elem?-lt, length-set,
}
use raiezau.Base.Bytes.{Bytes, codes}
use raiezau.Cutil.HashTable
use raiezau.Cutil.Text.{string_split}
use raiezau.Cutil.Uthash.{Uthash}
use raiezau.Tracker.Client.{
  client_dec_ref, delete_client, client_free, remove_client_from_file_list,
}
use raiezau.Tracker.Protocol.{
  build_step, build_peer_loop, build_peer_string_list, endpoints, substring,
  seed_leech_match_and_parse, get_seed_file_list, get_leech_file_list, leech_loop, seed_loop,
  set_files, add_client_to_files,
}
use raiezau.Tracker.State.{
  Client, File, State, load_client, load_file, store_client, >>=-some, >>=-none, load_file_lem,
  load_client_lem,
}

module _ {u : Uthash ℕ} (s : State u) where
  build_step_freed :
      (current c : ℕ) (out : Bytes)
      → c ≢ current
      → get_elem? s.client_at c ≡ some none
      → build_step u current c out s ≡ none
  unfolding build_step
  build_step_freed current c out ne freed = ground arith

  build_step_same :
      (current c : ℕ) (out : Bytes) {out' : Bytes} {s' : State u}
      → build_step u current c out s ≡ some (out', s')
      → s' ≡ s
  unfolding build_step
  build_step_same current c out h = ground arith

  loop_none :
      (current : ℕ) (n : Bytes) (c : ℕ) (es : List (Bytes × ℕ)) (out : Bytes)
      → build_step u current c out s ≡ none
      → build_peer_loop u current ((n, c) ∷ es) out s ≡ none
  loop_none current n c es out e =
      unfold build_peer_loop in
      >>=-none (build_step u current c out) (λ out. build_peer_loop u current es out) s e

  loop_some :
      (current : ℕ) (n : Bytes) (c : ℕ) (es : List (Bytes × ℕ)) (out : Bytes) {out' : Bytes}
      {s' : State u}
      → build_step u current c out s ≡ some (out', s')
      → build_peer_loop u current ((n, c) ∷ es) out s ≡ build_peer_loop u current es out' s
  loop_some current n c es out {out'} e =
      let same = build_step_same current c out e in
      unfold build_peer_loop in
      >>=-some (build_step u current c out) (λ out. build_peer_loop u current es out) s e
      ∙ ap (build_peer_loop u current es out') same

  -- An answer is not built where the table holds a freed client other than the one that asks.
  build_peer_loop_freed :
      (current c : ℕ) (n : Bytes) (xs ys : List (Bytes × ℕ)) (out : Bytes)
      → c ≢ current
      → get_elem? s.client_at c ≡ some none
      → build_peer_loop u current (xs ++ (n, c) ∷ ys) out s ≡ none
  build_peer_loop_freed current c n [] ys out ne freed =
      loop_none current n c ys out (build_step_freed current c out ne freed)
  build_peer_loop_freed current c n ((m, d) ∷ xs) ys out ne freed =
      elim (Option-cases (build_step u current d out s)) [
        | inl e ↦ loop_none current m d (xs ++ (n, c) ∷ ys) out e
        | inr ((out', s'), e) ↦
            loop_some current m d (xs ++ (n, c) ∷ ys) out e
            ∙ build_peer_loop_freed current c n xs ys out' ne freed
      ]

  endpoints_freed :
      (current c f : ℕ) (n : Bytes) (x : File u) (xs ys : List (Bytes × ℕ))
      → c ≢ current
      → get_elem? s.client_at c ≡ some none
      → get_elem? s.files f ≡ some x
      → u.entries x.clients ≡ xs ++ (n, c) ∷ ys
      → endpoints u current (some f) s ≡ none
  endpoints_freed current c f n x xs ys ne freed at e =
      unfold endpoints build_peer_string_list in
      >>=-some (load_file f) _ s (load_file_lem f s at)
      ∙ ap (λ es. build_peer_loop u current es [] s) e
      ∙ build_peer_loop_freed current c n xs ys [] ne freed

module _ {u : Uthash ℕ} (s : State u) (c : ℕ) (k : Client)
    (live : get_elem? s.client_at c ≡ some (some k)) where
  forgets : Client
  forgets = record k { files_seed = []; files_leech = [] }

  forgotten : State u
  unfolding forgets
  forgotten = record s { client_at = set s.client_at c (some forgets) }

  set_files_nothing : set_files u c [] [] s ≡ some (tt, forgotten)
  set_files_nothing =
      unfold set_files store_client forgotten in
      >>=-some (load_client c) _ s (load_client_lem c s live)

  seed_nothing :
      (str : Bytes) → string_split str (codes " ") ≡ [] → get_seed_file_list u str s ≡ some ([], s)
  seed_nothing str e = unfold get_seed_file_list seed_loop in rw e refl

  leech_nothing :
      (str : Bytes) → string_split str (codes " ") ≡ [] → get_leech_file_list u str s ≡ some ([], s)
  leech_nothing str e = unfold get_leech_file_list leech_loop in rw e refl

  -- `update` with two empty lists
  update_nothing :
      (req : Bytes) (m₁ m₂ : ℕ × ℕ)
      → string_split (substring req m₁) (codes " ") ≡ []
      → string_split (substring req m₂) (codes " ") ≡ []
      → seed_leech_match_and_parse u c req m₁ m₂ s ≡ some (tt, forgotten)
  update_nothing req m₁ m₂ e₁ e₂ =
      unfold seed_leech_match_and_parse in
      >>=-some (get_seed_file_list u (substring req m₁)) _ s (seed_nothing (substring req m₁) e₁)
      ∙ >>=-some (get_leech_file_list u (substring req m₂)) _ s
          (leech_nothing (substring req m₂) e₂)
      ∙ >>=-some (set_files u c [] []) _ s set_files_nothing
      ∙ unfold add_client_to_files in refl

module _ {u : Uthash ℕ} (c : ℕ) (k : Client) (no_seed : k.files_seed ≡ [])
    (no_leech : k.files_leech ≡ []) where
  client_free_nothing :
      (s : State u)
      → get_elem? s.client_at c ≡ some (some k)
      → client_free u c s ≡ some (tt, record s { client_at = set s.client_at c none })
  client_free_nothing s live =
      unfold client_free remove_client_from_file_list in
      >>=-some (load_client c) _ s (load_client_lem c s live) ∙ rw (no_seed, no_leech) refl

  -- the state in which the client is deleted and freed
  deleted : State u → State u
  deleted s = record s {
    clients = (HashTable.remove_entry u s.clients k.conn_addr_key).0;
    client_at = set s.client_at c none;
  }

  delete_client_nothing :
      (s : State u)
      → get_elem? s.client_at c ≡ some (some k)
      → delete_client u c s ≡ some (tt, deleted s)
  delete_client_nothing s live =
      let s' = record s { clients = (HashTable.remove_entry u s.clients k.conn_addr_key).0 } in
      unfold delete_client deleted in
      >>=-some (load_client c) _ s (load_client_lem c s live) ∙ client_free_nothing s' live

module _ {u : Uthash ℕ} (s : State u) (c : ℕ) (k : Client)
    (live : get_elem? s.client_at c ≡ some (some k)) (no_seed : k.files_seed ≡ [])
    (no_leech : k.files_leech ≡ []) where
  lower : Client
  lower = record k { ref_count = k.ref_count - 1 }

  lowered : State u
  unfolding lower
  lowered = record s { client_at = set s.client_at c (some lower) }

  freed : State u
  unfolding lowered deleted
  freed = deleted c lower no_seed no_leech lowered

  inside : c < length s.client_at
  inside = get_elem?-lt s.client_at c live

  dec_ref_last : k.ref_count ≤ 1 → client_dec_ref u c s ≡ some (tt, freed)
  dec_ref_last le =
      let last : leb (k.ref_count - 1) 0 ≡ true = ground arith in
      unfold client_dec_ref store_client freed lowered lower in
      >>=-some (load_client c) _ s (load_client_lem c s live)
      ∙ rw last (
          delete_client_nothing c lower no_seed no_leech lowered
            (get_elem?-set_self s.client_at c (some lower) inside))

  freed_files : freed.files ≡ s.files
  unfolding freed
  freed_files = refl

  freed_client : get_elem? freed.client_at c ≡ some none
  unfolding freed
  freed_client =
      get_elem?-set_self lowered.client_at c none
        (omega (arith, length-set s.client_at c (some lower), inside))

-- A client that is in a file's table says by `update` that it has nothing any more, and then loses
-- its last reference. Both steps succeed and the client is deleted, but the file's table still points
-- to it: the search for the file's peers for any other client reads freed memory.
pub update-freed :
    {u : Uthash ℕ} (s : State u) (c d f : ℕ) (k : Client) (x : File u) (n : Bytes)
    (xs ys : List (Bytes × ℕ)) (req : Bytes) (m₁ m₂ : ℕ × ℕ)
    → get_elem? s.client_at c ≡ some (some k)
    → k.ref_count ≤ 1
    → get_elem? s.files f ≡ some x
    → u.entries x.clients ≡ xs ++ (n, c) ∷ ys
    → c ≢ d
    → string_split (substring req m₁) (codes " ") ≡ []
    → string_split (substring req m₂) (codes " ") ≡ []
    → (s₁ s₂ : State u) × (seed_leech_match_and_parse u c req m₁ m₂ s ≡ some (tt, s₁))
      × (client_dec_ref u c s₁ ≡ some (tt, s₂))
      × (endpoints u d (some f) s₂ ≡ none)
update-freed s c d f k x n xs ys req m₁ m₂ live le at e ne e₁ e₂ =
    let s₁ = forgotten s c k live in
    let k₁ = forgets s c k live in
    let live₁ : get_elem? s₁.client_at c ≡ some (some k₁) =
      unfold forgotten in
      get_elem?-set_self s.client_at c (some k₁) (get_elem?-lt s.client_at c live) in
    let none₁ : k₁.files_seed ≡ [] = unfold forgets in refl in
    let none₂ : k₁.files_leech ≡ [] = unfold forgets in refl in
    let s₂ = freed s₁ c k₁ live₁ none₁ none₂ in
    let kept : get_elem? s₁.files f ≡ some x = unfold forgotten in at in
    let same : get_elem? s₂.files f ≡ some x =
      ap (λ files. get_elem? files f) (freed_files s₁ c k₁ live₁ none₁ none₂) ∙ kept in
    (
      s₁,
      s₂,
      update_nothing s c k live req m₁ m₂ e₁ e₂,
      dec_ref_last s₁ c k₁ live₁ none₁ none₂ (unfold forgets in le),
      endpoints_freed s₂ d c f n x xs ys ne (freed_client s₁ c k₁ live₁ none₁ none₂) same e,
    )
