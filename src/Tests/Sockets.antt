-- ===== src/Tests/Sockets.antt =====
-- tracker/network.c at concrete inputs.
use raiezau.Base.{
  ℕ, ◌+◌, ◌≡◌, ◌<◌, ◌↔◌, ◌≤◌, refl, Bool, true, Option, none, some, [], ◌∷◌, ◌++◌, map, arith,
  length, get_elem?, take, drop, inl, inr,
}
use raiezau.Base.Bytes.{codes}
use raiezau.Cutil.Uthash.{assoc}
use raiezau.Tracker.Network.Clean.{clean_fds-IsOpen, tally-clean_fds}
use raiezau.Tracker.Network.Round.{tally, open_and, IsOpen}
use raiezau.Tracker.Network.Connect.{IsSized, put_slot-reserve}
use raiezau.Tracker.Network.Read.{Buffer, string, append_chunk, socket_read_string, last_byte}
use raiezau.Tracker.Network.Read.Chunks.{
  IsFilled, append_chunk-overflow, Chunks, concat, newlines, socket_read_string-Chunks,
}
use raiezau.Base.Int.{ℤ, pos, negsuc}
use raiezau.Tracker.Network.Slots.{
  Slot, Poll, clean_fds, reserve, put_slot, Loop, handle_incoming_data,
}
use raiezau.Tracker.Client.{client_create}
use raiezau.Tracker.Network.Ready.{ready}
use raiezau.Tracker.Network.Requests.{handle_incoming_data_lem}
use raiezau.Tracker.Network.Settled.{Settled}
use raiezau.Tracker.File.Peers.{IsTabled}
use raiezau.Tracker.State.{State, Client}

abbrev slot : ℤ → Option ℕ → Slot
slot fd client = record { fd = fd; events = 1; revents = 0; client = client }

-- The listener, two closed slots and an open one.
abbrev watched : Poll
watched = record {
  nfds = 4;
  fds_buffer_size = 4;
  slots =
      slot (pos 3) none ∷ slot (negsuc 0) none ∷ slot (negsuc 0) none ∷ slot (pos 5) (some 0) ∷ [];
}

cleaned : (clean_fds watched).nfds ≡ 2
unfolding clean_fds
cleaned = refl

clean_fds-IsOpen_example : IsOpen (clean_fds watched) 1
unfolding clean_fds
clean_fds-IsOpen_example =
    clean_fds-IsOpen watched 1 (omega arith) (omega arith) (omega arith) (omega arith)

tally-clean_fds_example :
    let all : Slot → Bool = λ x. true in
    (tally (open_and all) (clean_fds watched).nfds (clean_fds watched).slots
      ≡ tally (open_and all) watched.nfds watched.slots)
    × (get_elem? (clean_fds watched).slots 0 ≡ get_elem? watched.slots 0)
    × (length (clean_fds watched).slots ≡ length watched.slots)
    × (1 ≤ (clean_fds watched).nfds)
    × ((clean_fds watched).nfds ≤ watched.nfds)
tally-clean_fds_example = tally-clean_fds watched (λ x. true) (omega arith) (omega arith)

abbrev fresh : Slot
fresh = slot (pos 6) (some 1)

put_slot-reserve_example :
    (q : Poll) × (put_slot fresh (reserve (slot (pos 0) none) watched) ≡ some q)
    × IsSized q
    × (q.nfds ≡ watched.nfds + 1)
    × (get_elem? q.slots watched.nfds ≡ some fresh)
    × (get_elem? q.slots 3 ≡ get_elem? watched.slots 3)
put_slot-reserve_example =
    put_slot-reserve (slot (pos 0) none) fresh watched 3
      (record { listener = omega arith; fits = omega arith; size = refl }) (omega arith)
      (omega arith)

abbrev filled : Buffer
filled = record { str = codes "ab"; str_size = 2; str_bufsize = 3072 }

filled-IsFilled : IsFilled filled
filled-IsFilled = record { large = omega arith; size = refl; room = omega arith }

append_chunk-overflow_example :
    (append_chunk (codes "cd") filled ≡ none)
    ↔ (length filled.str + length (codes "cd") ≡ filled.str_bufsize)
append_chunk-overflow_example =
    append_chunk-overflow (codes "cd") filled (omega arith) (omega arith) filled-IsFilled

two-Chunks : Chunks (codes "lo" ∷ codes "ok\n\n" ∷ [])
unfolding Chunks last_byte
two-Chunks = (cc, omega arith, omega arith, (cc, omega arith, refl))

socket_read_string-Chunks_example :
    socket_read_string (map some (codes "lo" ∷ codes "ok\n\n" ∷ []) ++ none ∷ [])
    ≡ string 4 (codes "look")
unfolding concat newlines last_byte
socket_read_string-Chunks_example =
    socket_read_string-Chunks (codes "lo" ∷ codes "ok\n\n" ∷ []) (none ∷ []) (codes "look") 1
      two-Chunks refl (omega arith) (omega arith)

-- a client that has sent something, a closed slot, a client that has sent something and hung up, and
-- one that is quiet
abbrev polled : Poll
polled = record {
  nfds = 5;
  fds_buffer_size = 8;
  slots =
      slot (pos 3) none
      ∷ record { fd = pos 5; events = 1; revents = 1; client = some 0 }
      ∷ slot (negsuc 0) none
      ∷ record { fd = pos 6; events = 1; revents = 0x2001; client = some 1 }
      ∷ slot (pos 7) (some 2)
      ∷ [];
}

abbrev connected : Client
connected =
    client_create 5 (record { a = 1; b = 2; c = 3; d = 4; port = 9000 }) (codes "1.2.3.4:9000")

abbrev three_clients : State (assoc ℕ)
three_clients = record {
  files = [];
  file_by_hash = [];
  file_by_name = [];
  name_lists = [];
  clients = [];
  client_at = some connected ∷ some connected ∷ some connected ∷ [];
  sent = [];
}

three_clients-IsTabled : IsTabled three_clients
three_clients-IsTabled g x e = ground arith

handle_incoming_data_lem_example :
    (l : Loop (assoc ℕ)) × (handle_incoming_data (assoc ℕ) (polled, three_clients) ≡ some l)
    × (l.threads ≡ ready (take 4 (drop 1 polled.slots)))
    × (l.poll.nfds ≡ 5)
    × (get_elem? l.poll.slots 0 ≡ get_elem? polled.slots 0)
    × ((j : ℕ) (x : Slot)
        → 1 ≤ j
        → j < 5
        → get_elem? polled.slots j ≡ some x
        → (y : Slot) × (get_elem? l.poll.slots j ≡ some y) × Settled x y)
unfolding client_create
handle_incoming_data_lem_example =
    handle_incoming_data_lem polled three_clients (omega arith) (omega arith) three_clients-IsTabled
      (
        inr (0, connected, refl, refl, refl, inl (refl, refl)),
        (
          inl refl,
          (
            inr (1, connected, refl, refl, refl, inl (refl, refl)),
            (inr (2, connected, refl, refl, refl, inl (refl, refl)), tt),
          ),
        ),
      )
      (
        (λ c e has. (inl refl, (inr (λ e. ground arith), (inr (λ e. ground arith), tt)))),
        (
          (λ c e has. ground arith),
          ((λ c e has. (inr (λ e. ground arith), tt)), ((λ c e has. tt), tt)),
        ),
      )

-- one thread is started, for the first client
one_started : ready (take 4 (drop 1 polled.slots)) ≡ 0 ∷ []
unfolding ready
one_started = refl
