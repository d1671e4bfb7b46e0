-- ===== src/Tracker/Network/Settled.antt =====
-- What `handle_incoming_data` makes of one slot, and of its client.
use raiezau.Base.{
  ℕ, suc, ◌+◌, ◌≡◌, ◌≢◌, refl, true, false, none, some, [], ◌∷◌, ◌++◌, length, get_elem?, set, drop,
  Bool-cases, inl, inr, ◌⊎◌, get_elem?-set_self, get_elem?-set_ne, get_elem?-lt,
}
use raiezau.Base.Int.{negsuc}
use raiezau.Cutil.Uthash.{Uthash}
use raiezau.Tracker.Client.{client_inc_ref}
use raiezau.Tracker.Client.Dropping.{IsListed, Spares}
use raiezau.Tracker.File.Peers.{IsTabled}
use raiezau.Tracker.Network.Ready.{ready}
use raiezau.Tracker.Network.Slots.{
  Slot, Loop, is_negative, has_flag, pollin, poll_gone, pollrdhup, rehear,
}
use raiezau.Tracker.State.{State, Client, load_client, store_client, load_client_lem, >>=-some}

-- What becomes of a slot: a closed one stays; one whose client hung up is closed and has no client any
-- more; one that reports data is not asked for data again; the others go on as they are.
pub record Settled (x y : Slot) : Type 0 where
  pub closed : is_negative x.fd ≡ true → y ≡ x
  pub gone :
      is_negative x.fd ≡ false
      → has_flag x.revents poll_gone ≡ true
      → y ≡ record { fd = negsuc 0; events = 0; revents = 0; client = none }
  pub kept :
      is_negative x.fd ≡ false
      → has_flag x.revents poll_gone ≡ false
      → (y.fd ≡ x.fd) × (y.client ≡ x.client)
  pub served :
      is_negative x.fd ≡ false
      → has_flag x.revents poll_gone ≡ false
      → has_flag x.revents pollin ≡ true
      → (y.events ≡ pollrdhup) × (y.revents ≡ 0)

-- The slot is closed or has another client.
abbrev pub IsApart : Slot → ℕ → Type 0
IsApart x d = (is_negative x.fd ≡ true) ⊎ (x.client ≢ some d)

module _ {u : Uthash ℕ} where
  -- The client was not freed.
  abbrev pub IsAlive : State u → ℕ → Type 0
  IsAlive s c = (k : Client) × (get_elem? s.client_at c ≡ some (some k))

  -- A slot that is closed, or has a client that was not freed and whose files exist.
  abbrev pub IsServed : State u → Slot → Type 0
  IsServed s x =
      (is_negative x.fd ≡ true)
      ⊎ ((c : ℕ) × (k : Client) × (is_negative x.fd ≡ false)
          × (x.client ≡ some c)
          × (get_elem? s.client_at c ≡ some (some k))
          × IsListed s k)

  -- What a round on the slot leaves: all clients but the slot's, and the files.
  pub record Leaves (x : Slot) (s t : State u) : Type 0 where
    pub others : (d : ℕ) → IsApart x d → get_elem? t.client_at d ≡ get_elem? s.client_at d
    pub count : length t.files ≡ length s.files
    pub tabled : IsTabled t

  -- The result of a round on slot `i`.
  pub record Rounded (i : ℕ) (x : Slot) (l l' : Loop u) : Type 0 where
    pub leaves : Leaves x l.shared l'.shared
    pub threads : l'.threads ≡ l.threads ++ ready (x ∷ [])
    pub nfds : l'.poll.nfds ≡ l.poll.nfds
    pub later : drop (suc i) l'.poll.slots ≡ drop (suc i) l.poll.slots
    pub slots : (j : ℕ) → i ≢ j → get_elem? l'.poll.slots j ≡ get_elem? l.poll.slots j
    pub settled : (y : Slot) × (get_elem? l'.poll.slots i ≡ some y) × Settled x y

  pub stored-Spares :
      (s : State u) (c : ℕ) (k : Client)
      → IsTabled s
      → Spares c s (record s { client_at = set s.client_at c (some k) })
  stored-Spares s c k maps = record {
    others = λ d ne. get_elem?-set_ne s.client_at c d (some k) ne;
    count = refl;
    tabled = maps;
  }

  pub rehear_lem :
      (s : State u) (x : Slot) (c : ℕ) (k : Client)
      → get_elem? s.client_at c ≡ some (some k)
      → IsTabled s
      → IsListed s k
      → (y : Slot) × (t : State u) × (rehear u x c s ≡ some (y, t))
        × Spares c s t
        × ((j : Client) × (get_elem? t.client_at c ≡ some (some j)) × IsListed t j)
        × (y.revents ≡ x.revents)
        × (y.fd ≡ x.fd)
        × (y.client ≡ x.client)
  unfolding rehear load_client store_client
  rehear_lem s x c k at maps listed = elim (Bool-cases k.can_rehear) [
    | inl e ↦
        let k' : Client = record k { can_rehear = false } in
        (
          record x { events = pollin + pollrdhup },
          record s { client_at = set s.client_at c (some k') },
          rw (rehear, at, e) refl,
          stored-Spares s c k' maps,
          (k', get_elem?-set_self s.client_at c (some k') (get_elem?-lt s.client_at c at), listed),
          refl,
          refl,
          refl,
        )
    | inr e ↦ (
      x,
      s,
      rw (rehear, at, e) refl,
      record { others = λ d ne. refl; count = refl; tabled = maps },
      (k, at, listed),
      refl,
      refl,
      refl,
    )
  ]

  pub client_inc_ref_lem :
      (c : ℕ) (k : Client) (s : State u)
      → get_elem? s.client_at c ≡ some (some k)
      → IsTabled s
      → (t : State u) × (client_inc_ref u c s ≡ some (tt, t)) × Spares c s t
  unfolding client_inc_ref store_client
  client_inc_ref_lem c k s at maps =
      let raised : Client = record k { ref_count = k.ref_count + 1 } in
      (
        record s { client_at = set s.client_at c (some raised) },
        >>=-some (load_client c) _ s (load_client_lem c s at),
        stored-Spares s c raised maps,
      )
