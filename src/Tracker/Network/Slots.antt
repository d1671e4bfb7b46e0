-- ===== src/Tracker/Network/Slots.antt =====
-- The globals `nfds`, `fds_buffer_size`, `fds` and `clients` of tracker/network.c, and the functions
-- that change them. `fds[i]` and `clients[i]` are one slot. Slot 0 is the listener's.
use Prim.Native.Nat.{bit_and}
use raiezau.Base.{
  ℕ, zero, suc, ◌+◌, ◌-◌, ◌*◌, ◌%◌, ◌^◌, Bool, true, false, not, Option, none, some, List, [], ◌∷◌,
  ◌++◌, ◌==◌, ltb, if◌then◌else◌, length, get_elem?, set,
}
use raiezau.Base.Int.{ℤ, pos, negsuc}
use raiezau.Cutil.Uthash.{Uthash}
use raiezau.Tracker.Client.{client_get_or_create, client_inc_ref, client_dec_ref}
use raiezau.Tracker.Env.{SockAddr}
use raiezau.Tracker.State.{State, load_client, store_client}

abbrev pub is_negative : ℤ → Bool
is_negative (pos n) = false
is_negative (negsuc n) = true

-- `fd == -1`
unfoldable pub is_closed : ℤ → Bool
is_closed (negsuc zero) = true
is_closed _ = false

-- `fds[i]` and `clients[i]`; the pointer `none` is NULL.
pub record Slot : Type 0 where
  pub fd : ℤ
  pub events : ℕ
  pub revents : ℕ
  pub client : Option ℕ

pub record Poll : Type 0 where
  pub nfds : ℕ
  pub fds_buffer_size : ℕ
  pub slots : List Slot

abbrev pub pollin : ℕ
pollin = 0x1

abbrev pub pollrdhup : ℕ
pollrdhup = 0x2000

-- `POLLHUP|POLLRDHUP|POLLERR|POLLNVAL`
abbrev pub poll_gone : ℕ
poll_gone = 0x2038

abbrev pub has_flag : ℕ → ℕ → Bool
has_flag revents flags = not (bit_and revents flags == 0)

-- `realloc` to `n` slots; what it adds is not initialised: `junk`.
unfoldable pub resize : ℕ → Slot → List Slot → List Slot
resize zero junk slots = []
resize (suc n) junk [] = junk ∷ resize n junk []
resize (suc n) junk (x ∷ slots) = x ∷ resize n junk slots

unfoldable pub reserve : Slot → Poll → Poll
unfolding resize
reserve junk p =
    let doubled = p.fds_buffer_size * 2 % 2 ^ 32 in
    if ltb p.fds_buffer_size (p.nfds + 1)
    then record p { fds_buffer_size = doubled; slots = resize doubled junk p.slots }
    else p

-- the writes to slot `nfds`; one outside of the arrays is a fault
unfoldable pub put_slot : Slot → Poll → Option Poll
put_slot x p =
    if ltb p.nfds (length p.slots)
    then some (record p { slots = set p.slots p.nfds x; nfds = p.nfds + 1 })
    else none

module _ (u : Uthash ℕ) where
  -- `c` may be NULL, which `client_inc_ref` dereferences
  unfoldable pub add_new_client_to_fds : Slot → Option ℕ → Poll × State u → Option (Poll × State u)
  unfolding reserve put_slot client_inc_ref load_client
  add_new_client_to_fds junk none (p, s) = none
  add_new_client_to_fds junk (some c) (p, s) = elim (client_inc_ref u c s) [
    | none ↦ none
    | some (_, s) ↦ elim (load_client c s) [
      | none ↦ none
      | some (k, s) ↦
          let x : Slot = record {
            fd = pos k.socket;
            events = pollin + pollrdhup;
            revents = 0;
            client = some c;
          } in
          elim (put_slot x (reserve junk p)) [ none ↦ none | some p ↦ some (p, s) ]
    ]
  ]

  -- `accepted` is what `accept` returned, where `none` is a failure, and `peer_of` what `getpeername`
  -- says of a socket; it fails on the -1 that a failure of `accept` gives
  unfoldable pub handle_new_connection :
      Slot
      → (accepted : Option ℕ) → (peer_of : ℕ → Option SockAddr) → Poll × State u
      → Option (Poll × State u)
  unfolding client_get_or_create add_new_client_to_fds
  handle_new_connection junk accepted peer_of (p, s) =
      let found : Option ℕ × State u = elim accepted [
        | none ↦ (none, s)
        | some socket ↦ client_get_or_create u socket (peer_of socket) s
      ] in
      let (c, s) = found in add_new_client_to_fds junk c (p, s)

  -- the state of the loop of `handle_incoming_data`, with the clients whose request threads it has
  -- started, the last one at the end
  pub record Loop : Type 0 where
    pub poll : Poll
    pub shared : State u
    pub threads : List ℕ

  -- `if (clients[i]->can_rehear)`: the slot, and the client's flag reset
  unfoldable pub rehear : Slot → ℕ → State u → Option (Slot × State u)
  unfolding load_client store_client
  rehear x c s = elim (load_client c s) [
    | none ↦ none
    | some (k, s) ↦
        if k.can_rehear
        then elim (store_client c (record k { can_rehear = false }) s) [
          | none ↦ none
          | some (_, s) ↦ some (record x { events = pollin + pollrdhup }, s)
        ]
        else some (x, s)
  ]

  unfoldable pub hang_up : ℕ → Slot → ℕ → Loop → Option Loop
  unfolding client_dec_ref
  hang_up i x c l = elim (client_dec_ref u c l.shared) [
    | none ↦ none
    | some (_, s) ↦
        let closed = record x { fd = negsuc 0; events = 0; revents = 0; client = none } in
        some (record l { poll = record l.poll { slots = set l.poll.slots i closed }; shared = s })
  ]

  unfoldable pub start_request : ℕ → Slot → ℕ → Loop → Option Loop
  unfolding client_inc_ref
  start_request i x c l = elim (client_inc_ref u c l.shared) [
    | none ↦ none
    | some (_, s) ↦ some (record l {
      poll = record l.poll {
        slots = set l.poll.slots i (record x { events = pollrdhup; revents = 0 });
      };
      shared = s;
      threads = l.threads ++ c ∷ [];
    })
  ]

  -- the loop's body on slot `i`
  unfoldable pub incoming_slot : ℕ → Slot → Loop → Option Loop
  unfolding rehear hang_up start_request
  incoming_slot i x l = if is_negative x.fd then some l else elim x.client [
    | none ↦ none
    | some c ↦ elim (rehear x c l.shared) [
      | none ↦ none
      | some (x, s) ↦
          let l = record l { shared = s; poll = record l.poll { slots = set l.poll.slots i x } } in
          if has_flag x.revents poll_gone
          then hang_up i x c l
          else if has_flag x.revents pollin
          then start_request i x c l
          else some l
    ]
  ]

  unfoldable pub incoming_loop : ℕ → ℕ → Loop → Option Loop
  unfolding incoming_slot
  incoming_loop zero i l = some l
  incoming_loop (suc rounds) i l = elim (get_elem? l.poll.slots i) [
    | none ↦ none
    | some x ↦ elim (incoming_slot i x l) [ none ↦ none | some l ↦ incoming_loop rounds (suc i) l ]
  ]

  -- `nfds` does not change in the loop: it makes `nfds - 1` rounds, from slot 1
  unfoldable pub handle_incoming_data : Poll × State u → Option Loop
  unfolding incoming_loop
  handle_incoming_data (p, s) =
      incoming_loop (p.nfds - 1) 1 (record { poll = p; shared = s; threads = [] })

-- `while (fds[i].fd == -1)` of `clean_fds`. A round lowers `nfds`, so `nfds` rounds are enough.
unfoldable pub clean_slot : ℕ → ℕ → Poll → Poll
unfolding is_closed
clean_slot zero i p = p
clean_slot (suc fuel) i p = elim (get_elem? p.slots i) [
  | none ↦ p
  | some x ↦ elim (is_closed x.fd) [
    | false ↦ p
    | true ↦ elim (i == p.nfds - 1) [
      | true ↦
          clean_slot fuel i
            (record p { nfds = p.nfds - 1; slots = set p.slots i (record x { fd = negsuc 1 }) })
      | false ↦ elim (get_elem? p.slots (p.nfds - 1)) [
        | none ↦ p
        | some y ↦ clean_slot fuel i (record p { nfds = p.nfds - 1; slots = set p.slots i y })
      ]
    ]
  ]
]

-- the `for` loop of `clean_fds`, which makes `nfds` rounds at most
unfoldable pub clean_loop : ℕ → ℕ → Poll → Poll
unfolding clean_slot
clean_loop zero i p = p
clean_loop (suc rounds) i p = elim (ltb i p.nfds) [
  | true ↦ clean_loop rounds (suc i) (clean_slot p.nfds i p)
  | false ↦ p
]

unfoldable pub clean_fds : Poll → Poll
unfolding clean_loop
clean_fds p = clean_loop p.nfds 1 p
