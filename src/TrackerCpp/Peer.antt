-- ===== src/TrackerCpp/Peer.antt =====
-- tracker_cpp/Peer.cpp: a peer and its requests, over the files of the earlier tracker. A `Peer *` is
-- its place in the list of all peers made; a deleted peer leaves `none` there. What a set of pointers
-- is iterated in the order of, the addresses, is the order of the model's list.
pub mod Requests
pub mod Reading
pub mod Follows
pub mod Keeping
pub mod Ports
pub mod Serving
pub mod Staying
pub mod Lines
pub mod Deleted
use raiezau.Base.{
  ℕ, zero, suc, ◌+◌, ◌%◌, ◌^◌, ◌<◌, ◌≤◌, Bool, true, false, not, ◌&&◌, ◌||◌, Option, none, some,
  List, [], ◌∷◌, ◌++◌, ◌==◌, leb, ltb, if◌then◌else◌, length, get_elem?, set,
}
use raiezau.Base.Bytes.{Bytes, codes, str_eq}
use raiezau.Base.Int.{ℤ, pos, negsuc}
use raiezau.Tracker.Client.{ip_stringify}
use raiezau.Tracker.Env.{SockAddr, decimal}
use raiezau.TrackerCpp.CircularBuffer.{CircularBuffer}
use raiezau.TrackerCpp.Criterion.{Criterion, criterions, matches, quoted_argument}
use raiezau.TrackerCpp.FileMgr.{File, FileMgr, add_peer, to_string, get, get_file, map_insert}
use raiezau.TrackerCpp.Text.{stoul, stoi, Stream, stream, no_text, read_word, getline, split}

-- `addr` is the remote address
pub record Peer : Type 0 where
  pub addr : SockAddr
  pub listening_port : ℕ
  pub announced : Bool
  pub leech : List (Bytes × ℕ)
  pub seed : List (Bytes × ℕ)
  pub seq_error_count : ℕ
  pub read_buf : CircularBuffer

pub record Server : Type 0 where
  pub files : FileMgr
  pub peers : List (Option Peer)
  -- the texts written to the peers, the last one at the end
  pub written : List (ℕ × Bytes)

-- How a call ends: it returns, or it throws an `rz_exception` with its text, or an exception of the
-- library.
pub data Ending (A : Type 0) : Type 0 where
  returns : A → Ending A
  throws : Bytes → Ending A
  throws_std : Ending A

-- `none` is what C++ leaves undefined, such as a NULL pointer or a use of a deleted object.
abbrev pub Act : Type 0 → Type 0
Act A = Server → Option (Ending A × Server)

abbrev pub pure : {A : Type 0} → A → Act A
pure a s = some (returns a, s)

infixl 5 ◌>>=◌ ◌>>◌
abbrev pub ◌>>=◌ : {A B : Type 0} → Act A → (A → Act B) → Act B
◌>>=◌ m f s = elim (m s) [
  | none ↦ none
  | some (returns a, s') ↦ f a s'
  | some (throws text, s') ↦ some (throws text, s')
  | some (throws_std, s') ↦ some (throws_std, s')
]

abbrev pub ◌>>◌ : {B : Type 0} → Act (Unit {0}) → Act B → Act B
m >> k = m >>= λ _. k

abbrev pub modify : (Server → Server) → Act (Unit {0})
modify f s = some (returns tt, f s)

abbrev pub throw : {A : Type 0} → Bytes → Act A
throw text s = some (throws text, s)

-- `*p` of a `Peer *`, and a write to it
unfoldable pub load_peer : ℕ → Act Peer
load_peer p s = elim (get_elem? s.peers p) [
  | none ↦ none
  | some cell ↦ elim cell [ none ↦ none | some k ↦ some (returns k, s) ]
]

unfoldable pub store_peer : ℕ → Peer → Act (Unit {0})
store_peer p k = modify (λ s. record s { peers = set s.peers p (some k) })

unfoldable pub load_file : ℕ → Act File
load_file f s = elim (get_elem? s.files.files f) [ none ↦ none | some x ↦ some (returns x, s) ]

unfoldable pub store_file : ℕ → File → Act (Unit {0})
store_file f x = modify (λ s. record s { files = record s.files { files = set s.files.files f x } })

-- `write(msg)`
unfoldable pub write_text : ℕ → Bytes → Act (Unit {0})
write_text p msg = modify (λ s. record s { written = s.written ++ (p, msg) ∷ [] })

unfoldable pub send_ok : ℕ → Act (Unit {0})
unfolding write_text
send_ok p = write_text p (codes "ok\n")

-- `_seed.insert(f)` or `_leech.insert(f)`, and `f->addPeer(this)`
unfoldable pub join_seed : ℕ → ℕ → Act (Unit {0})
unfolding load_peer store_peer load_file store_file map_insert add_peer
join_seed p f = do
  x ← load_file f
  k ← load_peer p
  store_peer p (record k { seed = map_insert x.hash f k.seed })
  store_file f (add_peer p x)

unfoldable pub join_leech : ℕ → ℕ → Act (Unit {0})
unfolding load_peer store_peer load_file store_file map_insert add_peer
join_leech p f = do
  x ← load_file f
  k ← load_peer p
  store_peer p (record k { leech = map_insert x.hash f k.leech })
  store_file f (add_peer p x)

-- `remove_if` of the empty tokens
unfoldable pub without_empty : List Bytes → List Bytes
without_empty [] = []
without_empty (t ∷ v) = let rest = without_empty v in if no_text t then rest else t ∷ rest

-- `sFileMgr.getFile`
unfoldable pub make_file : Bytes → ℕ → ℕ → Bytes → Act ℕ
unfolding get_file
make_file name size piece hash s = elim (get_file name size piece hash s.files) [
  | none ↦ none
  | some (f, m) ↦ some (returns f, record s { files = m })
]

-- the loop of `parseAnnounceSeed`; a size that does not parse is logged, and its file left out
unfoldable pub announce_seed_loop : ℕ → List Bytes → Act (Unit {0})
unfolding stoul make_file join_seed
announce_seed_loop p (name ∷ size ∷ piece ∷ hash ∷ v) =
    let later = announce_seed_loop p v in
    elim (stoul size) [
      | none ↦ later
      | some n ↦ elim (stoul piece) [
        | none ↦ later
        | some m ↦ do f ← make_file name n m hash; join_seed p f; later
      ]
    ]
announce_seed_loop p _ = pure tt

unfoldable pub parse_announce_seed : ℕ → Bytes → Act (Unit {0})
unfolding load_peer store_peer split without_empty announce_seed_loop
parse_announce_seed p seed =
    let v = without_empty (split seed b' ') in
    do
      k ← load_peer p
      store_peer p (record k { seed = [] })
      (if not (length v % 4 == 0)
          then throw (codes "invalid seed argument count")
          else announce_seed_loop p v)

unfoldable pub announce_leech_loop : ℕ → List Bytes → Act (Unit {0})
unfolding get join_leech
announce_leech_loop p [] s = pure tt s
announce_leech_loop p (hash ∷ v) s = elim (get s.files hash) [
  | none ↦ announce_leech_loop p v s
  | some f ↦ (join_leech p f >> announce_leech_loop p v) s
]

unfoldable pub parse_announce_leech : ℕ → Bytes → Act (Unit {0})
unfolding load_peer store_peer split without_empty announce_leech_loop
parse_announce_leech p leech = do
  k ← load_peer p
  store_peer p (record k { leech = [] })
  announce_leech_loop p (without_empty (split leech b' '))

-- the variables of `handleAnnounce` and `handleUpdate`
pub record Words : Type 0 where
  pub line : Stream
  pub keyword : Bytes
  pub argument : Bytes
  pub listen : Bool
  pub seed : Bool
  pub leech : Bool

abbrev pub words : Stream → Words
words line = record {
  line = line;
  keyword = [];
  argument = [];
  listen = false;
  seed = false;
  leech = false;
}

-- the port that `stoi` reads, if it is one
unfoldable pub port_of : Bytes → Option ℕ
unfolding stoi
port_of argument = elim (stoi argument) [
  | none ↦ none
  | some (negsuc n) ↦ none
  | some (pos n) ↦ if n == 0 || ltb 65535 n then none else some n
]

-- `getline(line, garbage, '[')` and `getline(line, argument, ']')`
unfoldable pub bracketed : Stream → Bytes → Bytes × Stream
unfolding getline
bracketed line argument = getline b']' (getline b'[' line []).1 argument
