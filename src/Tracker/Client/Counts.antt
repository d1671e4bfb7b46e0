-- ===== src/Tracker/Client/Counts.antt =====
-- What `client_inc_ref`, `client_dec_ref` and a new connection do to the reference counts.
use raiezau.Base.{
  ℕ, zero, suc, ◌+◌, ◌-◌, ◌<◌, ◌≡◌, refl, sym, ap, ◌∙◌, ◌⊎◌, Option-cases, ◌++◌, Bool, true, false,
  ◌&&◌, Option, none, some, List, [], ◌∷◌, ◌==◌, leb, arith, get_elem?, set, if◌then◌else◌, inl,
  inr,
}
use raiezau.Cutil.HashTable
use raiezau.Cutil.Uthash.{Uthash}
use raiezau.Tracker.Client.{
  remove_client_from_file_list, client_free, delete_client, client_inc_ref, client_dec_ref,
  client_get_or_create, client_create, sockaddr_stringify,
}
use raiezau.Tracker.Env.{SockAddr}
use raiezau.Tracker.Client.Neutral.{
  count_in, cells-SameRefs, refs, refs_at, SameRefs, IsNeutral, >>=-steps, >>=-IsNeutral,
  pure-IsNeutral, load_client-IsNeutral, load_file-IsNeutral, store_file-IsNeutral,
  non_null-IsNeutral, refs_stored,
}
use raiezau.Tracker.File.{file_remove_client}
use raiezau.Tracker.State.{
  State, Client, pure, load_client, store_client, load_client-eq_some, load_client_lem, >>=-some,
  load_file, non_null,
}

-- a new cell at the end
count-snoc :
    (cells : List (Option Client)) (k : Client) (d : ℕ)
    → (count_in (get_elem? (cells ++ some k ∷ []) d) ≡ count_in (get_elem? cells d))
      ⊎ ((count_in (get_elem? cells d) ≡ none)
          × (count_in (get_elem? (cells ++ some k ∷ []) d) ≡ some k.ref_count))
unfolding count_in
count-snoc [] k zero = inr (refl, refl)
count-snoc [] k (suc d) = inl refl
count-snoc (x ∷ cells) k zero = inl refl
count-snoc (x ∷ cells) k (suc d) = count-snoc cells k d

module _ {u : Uthash ℕ} where
  pub file_remove_client-IsNeutral : (f c : ℕ) → IsNeutral (file_remove_client u f c)
  unfolding file_remove_client
  file_remove_client-IsNeutral f c = >>=-IsNeutral (load_file f) _ (load_file-IsNeutral f) (λ x.
      >>=-IsNeutral (load_client c) _ (load_client-IsNeutral c) (λ k.
        >>=-IsNeutral (non_null k.listen_addr_key) _ (non_null-IsNeutral k.listen_addr_key)
          (λ key. store_file-IsNeutral f _)))

  pub remove_client_from_file_list-IsNeutral :
      (c : ℕ) (files : List ℕ) → IsNeutral (remove_client_from_file_list u c files)
  unfolding remove_client_from_file_list
  remove_client_from_file_list-IsNeutral c [] = pure-IsNeutral tt
  remove_client_from_file_list-IsNeutral c (f ∷ files) =
      >>=-IsNeutral (file_remove_client u f c) _ (file_remove_client-IsNeutral f c)
        (λ _. remove_client_from_file_list-IsNeutral c files)

  -- `client_free` frees the client, if it returns, and no other.
  client_free-refs :
      (c : ℕ) (s : State u) {t : State u}
      → client_free u c s ≡ some (tt, t)
      → (d : ℕ) → refs t d ≡ (if c == d then none else refs s d)
  unfolding client_free count_in
  client_free-refs c s {t} h d =
      let (k, s0, e0, h1) = >>=-steps (load_client c) _ s h in
      let (_, s1, e1, h2) = >>=-steps (remove_client_from_file_list u c k.files_seed) _ s0 h1 in
      let (_, s2, e2, h3) = >>=-steps (remove_client_from_file_list u c k.files_leech) _ s1 h2 in
      let (at, eq) = load_client-eq_some c s e0 in
      let same : SameRefs s s2 = λ d.
        remove_client_from_file_list-IsNeutral c k.files_leech s1 _ s2 e2 d
        ∙ remove_client_from_file_list-IsNeutral c k.files_seed s0 _ s1 e1 d
        ∙ ap (λ x. refs x d) eq in
      let cells : t ≡ record s2 { client_at = set s2.client_at c none } = ground arith in
      ap (λ x. refs x d) cells
      ∙ refs_stored c s2 none (same c ∙ refs_at c s at) d
      ∙ rw (same d) refl

  pub client_inc_ref-refs :
      (c : ℕ) (s : State u) {t : State u}
      → client_inc_ref u c s ≡ some (tt, t)
      → (n : ℕ) × (refs s c ≡ some n)
        × ((d : ℕ) → refs t d ≡ (if c == d then some (n + 1) else refs s d))
  unfolding client_inc_ref store_client count_in
  client_inc_ref-refs c s {t} h =
      let (k, s0, e0, h1) = >>=-steps (load_client c) _ s h in
      let (at, eq) = load_client-eq_some c s e0 in
      let cells : t ≡ record s {
        client_at = set s.client_at c (some (record k { ref_count = k.ref_count + 1 }));
      } =
        ground arith in
      (
        k.ref_count,
        refs_at c s at,
        λ d. ap (λ x. refs x d) cells ∙ refs_stored c s _ (refs_at c s at) d,
      )

  delete_client-refs :
      (c : ℕ) (s : State u) {t : State u}
      → delete_client u c s ≡ some (tt, t)
      → (d : ℕ) → refs t d ≡ (if c == d then none else refs s d)
  unfolding delete_client
  delete_client-refs c s {t} h d =
      let (k, s0, e0, h1) = >>=-steps (load_client c) _ s h in
      let same : SameRefs s
          (record s0 { clients = (HashTable.remove_entry u s0.clients k.conn_addr_key).0 }) =
        λ d. cells-SameRefs s0 _ refl d ∙ load_client-IsNeutral c s k s0 e0 d in
      client_free-refs c _ h1 d ∙ rw (same d) refl

  -- the end of `client_dec_ref`
  rest-refs :
      (c : ℕ) (last : Bool) (s : State u) {t : State u}
      → (if last then delete_client u c else pure tt) s ≡ some (tt, t)
      → (d : ℕ) → refs t d ≡ (if last && c == d then none else refs s d)
  rest-refs c true s h d = delete_client-refs c s h d
  rest-refs c false s h d = pure-IsNeutral tt s tt _ h d

  -- `client_dec_ref`, if it returns, lowers the count of a client that was not freed, and frees the
  -- client if nothing is left.
  pub client_dec_ref-refs :
      (c : ℕ) (s : State u) {t : State u}
      → client_dec_ref u c s ≡ some (tt, t)
      → (n : ℕ) × (refs s c ≡ some n)
        × ((d : ℕ)
            → refs t d ≡ (if c == d then (if leb n 1 then none else some (n - 1)) else refs s d))
  unfolding client_dec_ref store_client count_in
  client_dec_ref-refs c s {t} h =
      let (k, s0, e0, h1) = >>=-steps (load_client c) _ s h in
      let (at, eq) = load_client-eq_some c s e0 in
      let lower : Client = record k { ref_count = k.ref_count - 1 } in
      let h2 : (if leb (k.ref_count - 1) 0 then delete_client u c else pure tt)
            (record s { client_at = set s.client_at c (some lower) })
          ≡ some (tt, t) =
        ground (arith, h1, eq) in
      (
        k.ref_count,
        refs_at c s at,
        λ d.
            rest-refs c (leb (k.ref_count - 1) 0)
              (record s { client_at = set s.client_at c (some lower) }) h2 d
            ∙ rw (refs_stored c s (some lower) (refs_at c s at) d) (ground arith),
      )

  -- A client that `client_get_or_create` gives is one that it found, or a new one without references.
  pub created-refs :
      (socket : ℕ) (addr : SockAddr) (s t : State u) (c d : ℕ)
      → client_get_or_create u socket (some addr) s ≡ (some c, t)
      → (refs t d ≡ refs s d) ⊎ ((refs s d ≡ none) × (refs t d ≡ some 0))
  unfolding client_get_or_create client_create refs count_in
  created-refs socket addr s t c d h =
      elim (Option-cases (HashTable.get_entry u s.clients (sockaddr_stringify addr))) [
        | inr (found, e) ↦
            inl (ap (λ x. refs x d) (sym (ap (λ r. r.1) (rw (client_get_or_create, e) at h))))
        | inl e ↦
            let k = client_create socket addr (sockaddr_stringify addr) in
            let at : refs t d ≡ count_in (get_elem? (s.client_at ++ some k ∷ []) d) =
              ap (λ x. refs x d) (sym (ap (λ r. r.1) (rw (client_get_or_create, e) at h))) in
            elim (count-snoc s.client_at k d) [
              | inl same ↦ inl (at ∙ same)
              | inr (gone, new) ↦ inr (gone, at ∙ new)
            ]
      ]

  -- A reference that is not the last one.
  pub client_dec_ref_more :
      (c : ℕ) (s : State u) (k : Client)
      → get_elem? s.client_at c ≡ some (some k)
      → 1 < k.ref_count
      → client_dec_ref u c s
        ≡ some (
          tt,
          record s {
            client_at = set s.client_at c (some (record k { ref_count = k.ref_count - 1 }));
          },
        )
  unfolding client_dec_ref store_client
  client_dec_ref_more c s k at more =
      let others : leb (k.ref_count - 1) 0 ≡ false = ground arith in
      >>=-some (load_client c) _ s (load_client_lem c s at) ∙ rw others refl
