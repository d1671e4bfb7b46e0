-- ===== src/Tests/Threads.antt =====
-- The threads and the reference counts at concrete inputs.
use raiezau.Base.{
  ℕ, ◌≡◌, ◌<◌, arith, sym, ap, ◌∙◌, refl, ◌==◌, if◌then◌else◌, Option, none, some, List, [], ◌∷◌,
  get_elem?,
}
use raiezau.Base.Bytes.{codes, str_eq}
use raiezau.Base.Int.{pos}
use raiezau.Cutil.Uthash.{Uthash, assoc, assoc_find}
use raiezau.Tracker.Client.{client_create, client_dec_ref, sockaddr_stringify}
use raiezau.Tracker.Client.Neutral.{SameRefs}
use raiezau.Tracker.Env.{Posix, SockAddr}
use raiezau.Tracker.Network.Incoming.{serving, running, begun}
use raiezau.Tracker.Network.Holding.{IsWell, holds, same_value}
use raiezau.Tracker.Network.Polled.{report}
use raiezau.Tracker.Network.Round.{tally}
use raiezau.Tracker.Network.Race.{race, race-freed}
use raiezau.Tracker.Network.Settled.{IsAlive}
use raiezau.Tracker.Network.Slots.{Slot, Poll, is_closed, incoming_slot, handle_new_connection}
use raiezau.Tracker.Network.Threads.{
  System, holders, Step, accepts, polls, handles, Reach, here, next, IsNew, Reach-IsAlive,
}
use raiezau.Tracker.Protocol.{Handler}
use raiezau.Tracker.Protocol.References.{serve-SameRefs}
use raiezau.Tracker.Protocol.Serve.{serve, handle_request}
use raiezau.Tracker.State.{State, Client}

abbrev u : Uthash ℕ
u = assoc ℕ

-- no pattern compiles
abbrev posix : Posix
posix = record { Regex = Unit; regcomp = λ p. none; regexec = λ r t. none }

abbrev handlers : Uthash Handler
handlers = assoc Handler

abbrev address : SockAddr
address = record { a = 10; b = 0; c = 0; d = 7; port = 4000 }

abbrev shared : List (Option Client) → State u
shared cells = record {
  files = [];
  file_by_hash = [];
  file_by_name = [];
  name_lists = [];
  clients = [];
  client_at = cells;
  sent = [];
}

abbrev unused : Slot
unused = record { fd = pos 0; events = 0; revents = 0; client = none }

abbrev listening : Poll
listening = record { nfds = 1; fds_buffer_size = 4; slots = unused ∷ unused ∷ unused ∷ unused ∷ [] }

abbrev new : System u
new = record { shared = shared []; poll = listening; threads = [] }

abbrev peer : ℕ → Client
peer references = record (client_create 5 address (sockaddr_stringify address)) {
  ref_count = references;
}

abbrev with_peer : ℕ → State u
with_peer references = record (shared (some (peer references) ∷ [])) {
  clients = (sockaddr_stringify address, 0) ∷ [];
}

-- the arrays with a slot for the client
abbrev accepted : ℕ → ℕ → Poll
accepted events revents = record {
  nfds = 2;
  fds_buffer_size = 4;
  slots =
      unused
      ∷ record { fd = pos 5; events = events; revents = revents; client = some 0 }
      ∷ unused
      ∷ unused
      ∷ [];
}

abbrev started : System u
started = record {
  shared = with_peer 2;
  poll = accepted 0x2000 0;
  threads = record { client = 0; phase = serving } ∷ [];
}

abbrev connected : ℕ → System u
connected revents = record { shared = with_peer 1; poll = accepted 0x2001 revents; threads = [] }

accept : Step u posix handlers new (connected 0)
unfolding handle_new_connection client_create assoc_find
accept =
    accepts unused 5 address listening (accepted 0x2001 0) 0 (shared []) (with_peer 0) (with_peer 1)
      [] refl refl

-- `poll` reports data of the client
data_reported : Step u posix handlers (connected 0) (connected 1)
unfolding report
data_reported = polls (accepted 0x2001 0) (λ i. if i == 1 then 1 else 0) (with_peer 1) []

-- a client connects, and a thread for its first request is started
started-Reach : Reach u posix handlers new started
unfolding incoming_slot begun client_create
started-Reach =
    next (next (next here accept) data_reported)
      (handles 1 _ (accepted 0x2001 1) (with_peer 1) _ [] (omega arith) (omega arith) refl refl)

new-IsWell : IsWell listening
unfolding is_closed
new-IsWell = record {
  least = omega arith;
  fits = omega arith;
  empty = λ i x lt at closed.
      let first : i ≡ 0 = omega arith in
      let same : unused ≡ x = same_value refl (ap (get_elem? listening.slots) (sym first) ∙ at) in
      ap (λ z. z.client) (sym same);
}

new-IsNew : IsNew u posix handlers new
unfolding holds tally
new-IsNew = record { cells = refl; well = new-IsWell; slots = λ d. refl; idle = refl }

Reach-IsAlive_example :
    (k : Client) × (get_elem? started.shared.client_at 0 ≡ some (some k))
    × (k.ref_count ≡ holders u started 0)
    × (1 < k.ref_count
        → (t : State u) × (client_dec_ref u 0 started.shared ≡ some (tt, t)) × IsAlive t 0)
    × IsWell started.poll
unfolding holds tally running
Reach-IsAlive_example = Reach-IsAlive u posix handlers 0 new-IsNew started-Reach (omega arith)

abbrev answered : State u
answered = record (with_peer 2) { sent = (5, codes "error\n") ∷ [] }

serve-SameRefs_example : SameRefs (with_peer 2) answered
unfolding serve assoc_find str_eq client_create
serve-SameRefs_example =
    serve-SameRefs posix handlers 0 (some (7, codes "look []")) (with_peer 2) answered refl

race-freed_example :
    (t : State u) × (w : State u) × (race 0 (with_peer 2) ≡ some (tt, t))
    × (client_dec_ref u 0 t ≡ some (tt, w))
    × (handle_request u posix handlers 0 none w ≡ none)
unfolding client_create
race-freed_example = race-freed posix handlers 0 none (peer 2) (with_peer 2) refl refl refl refl
