-- ===== src/Tracker/Network/Race.antt =====
-- `++ c->ref_count` and `-- c->ref_count` are not atomic, and no lock guards them.
use raiezau.Base.{
  ℕ, ◌+◌, ◌-◌, ◌≡◌, refl, ◌∙◌, true, false, if◌then◌else◌, none, some, Option, [], leb, get_elem?,
  set, arith, get_elem?-set_self, get_elem?-lt,
}
use raiezau.Base.Bytes.{Bytes}
use raiezau.Cutil.HashTable
use raiezau.Cutil.Uthash.{Uthash}
use raiezau.Tracker.Client.{
  client_dec_ref, delete_client, client_free, remove_client_from_file_list,
}
use raiezau.Tracker.Env.{Posix}
use raiezau.Tracker.Protocol.{Handler}
use raiezau.Tracker.Protocol.Serve.{serve, handle_request}
use raiezau.Tracker.State.{
  State, Client, Cmd, pure, ◌>>=◌, ◌>>◌, load_client, store_client, load_client_lem, >>=-some,
  >>=-none,
}

module _ {u : Uthash ℕ} where
  -- A request thread begins `-- c->ref_count`, and the network thread carries out `++ c->ref_count`
  -- before the request thread writes its result and tests it.
  unfoldable pub race : ℕ → Cmd u (Unit {0})
  unfolding load_client store_client delete_client
  race c = do
    old ← load_client c
    k ← load_client c
    store_client c (record k { ref_count = k.ref_count + 1 })
    k ← load_client c
    store_client c (record k { ref_count = old.ref_count - 1 })
    k ← load_client c
    if leb k.ref_count 0 then delete_client u c else pure tt

  -- the last reference of a client without files
  free_no_files :
      (c : ℕ) (k : Client) (s : State u)
      → get_elem? s.client_at c ≡ some (some k)
      → k.files_seed ≡ []
      → k.files_leech ≡ []
      → client_free u c s ≡ some (tt, record s { client_at = set s.client_at c none })
  unfolding client_free remove_client_from_file_list
  free_no_files c k s at seed leech =
      >>=-some (load_client c) _ s (load_client_lem c s at) ∙ rw (seed, leech) refl

  dec_no_files :
      (c : ℕ) (k : Client) (s : State u)
      → get_elem? s.client_at c ≡ some (some k)
      → leb (k.ref_count - 1) 0 ≡ true
      → k.files_seed ≡ []
      → k.files_leech ≡ []
      → (t : State u) × (client_dec_ref u c s ≡ some (tt, t))
        × (get_elem? t.client_at c ≡ some none)
  unfolding client_dec_ref delete_client store_client
  dec_no_files c k s at last seed leech =
      let lower : Client = record k { ref_count = k.ref_count - 1 } in
      let cells = set s.client_at c (some lower) in
      let lowered = get_elem?-set_self s.client_at c (some lower) (get_elem?-lt s.client_at c at) in
      let s1 : State u = record s { client_at = cells } in
      let s2 : State u = record s1 {
        clients = (HashTable.remove_entry u s.clients k.conn_addr_key).0;
      } in
      (
        record s2 { client_at = set cells c none },
        >>=-some (load_client c) _ s (load_client_lem c s at)
            ∙ rw last (
                >>=-some (load_client c) _ s1 (load_client_lem c s1 lowered)
                ∙ free_no_files c lower s2 lowered seed leech),
        get_elem?-set_self cells c none (get_elem?-lt cells c lowered),
      )

  module _ (posix : Posix) (handlers : Uthash Handler) (c : ℕ) (read : Option (ℕ × Bytes)) where
    serve_freed :
        (s : State u) → get_elem? s.client_at c ≡ some none → serve u posix handlers c read s ≡ none
    unfolding serve load_client
    serve_freed s gone = >>=-none (load_client c) _ s (rw (load_client, gone) refl)

    handle_request_freed :
        (s : State u)
        → get_elem? s.client_at c ≡ some none
        → handle_request u posix handlers c read s ≡ none
    unfolding handle_request
    handle_request_freed s gone = >>=-none (serve u posix handlers c read) _ s (serve_freed s gone)

    -- A client that lists no files and has two references, one of its slot and one of a request thread
    -- that is about to end: if the network thread starts another request while the old thread lowers
    -- the count, one of the two updates can be lost. Both return, and so does the drop of the slot's
    -- reference when the client hangs up, but it frees the client, and the new thread, whatever it
    -- reads, uses freed memory.
    pub race-freed :
        (k : Client) (s : State u)
        → get_elem? s.client_at c ≡ some (some k)
        → k.ref_count ≡ 2
        → k.files_seed ≡ []
        → k.files_leech ≡ []
        → (t : State u) × (w : State u) × (race c s ≡ some (tt, t))
          × (client_dec_ref u c t ≡ some (tt, w))
          × (handle_request u posix handlers c read w ≡ none)
    unfolding race store_client
    race-freed k s at two seed leech =
        let raised : Client = record k { ref_count = k.ref_count + 1 } in
        let lowered : Client = record raised { ref_count = k.ref_count - 1 } in
        let cells = set s.client_at c (some raised) in
        let at1 = get_elem?-set_self s.client_at c (some raised) (get_elem?-lt s.client_at c at) in
        let s1 : State u = record s { client_at = cells } in
        let t : State u = record s { client_at = set cells c (some lowered) } in
        let at2 = get_elem?-set_self cells c (some lowered) (get_elem?-lt cells c at1) in
        let (w, dropped, gone) = dec_no_files c lowered t at2 (ground (arith, two)) seed leech in
        let left : leb (k.ref_count - 1) 0 ≡ false = ground (arith, two) in
        let now = load_client_lem c s at in
        (
          t,
          w,
          >>=-some (load_client c) _ s now
              ∙ >>=-some (load_client c) _ s now
              ∙ >>=-some (load_client c) _ s1 (load_client_lem c s1 at1)
              ∙ >>=-some (load_client c) _ t (load_client_lem c t at2)
              ∙ rw left refl,
          dropped,
          handle_request_freed w gone,
        )
