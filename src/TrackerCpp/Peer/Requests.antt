-- ===== src/TrackerCpp/Peer/Requests.antt =====
-- The requests of Peer.cpp.
use raiezau.Base.{
  ℕ, zero, suc, Bool, true, false, not, ◌||◌, Option, none, some, List, [], ◌∷◌, ◌++◌, ◌==◌,
  if◌then◌else◌,
}
use raiezau.Base.Bytes.{Bytes, codes, str_eq}
use raiezau.Tracker.Client.{ip_stringify}
use raiezau.Tracker.Env.{decimal}
use raiezau.TrackerCpp.Criterion.{Criterion, criterions, matches, quoted_argument}
use raiezau.TrackerCpp.FileMgr.{File, to_string, get}
use raiezau.TrackerCpp.Peer.{
  Peer, throws_std, Act, pure, ◌>>=◌, ◌>>◌, throw, load_peer, store_peer, load_file, write_text,
  send_ok, parse_announce_seed, parse_announce_leech, Words, words, port_of, bracketed,
}
use raiezau.TrackerCpp.Text.{Stream, read_word, split}

unfoldable pub unexpected : Bytes → Bytes
unexpected keyword = codes "unexpected token '" ++ (keyword ++ codes "'")

-- the rounds of the loop of `handleAnnounce`
unfoldable pub listen_round : ℕ → Words → Stream → Act Words
unfolding read_word port_of load_peer store_peer
listen_round p w line =
    let (argument, line) = read_word line w.argument in
    elim (port_of argument) [
      | none ↦ throw (codes "invalid listening port")
      | some port ↦ do
        k ← load_peer p
        store_peer p (record k { listening_port = port })
        pure (record w { line = line; argument = argument; listen = true })
    ]

unfoldable pub announce_round : ℕ → Words → Act Words
unfolding read_word listen_round bracketed parse_announce_seed parse_announce_leech unexpected
announce_round p w =
    let (keyword, line) = read_word w.line w.keyword in
    let (argument, rest) = bracketed line w.argument in
    let next : Words = record w { line = rest; keyword = keyword; argument = argument } in
    if str_eq keyword (codes "listen")
    then listen_round p (record w { keyword = keyword }) line
    else if str_eq keyword (codes "seed")
    then parse_announce_seed p argument >> pure (record next { seed = true })
    else if str_eq keyword (codes "leech")
    then parse_announce_leech p argument >> pure (record next { leech = true })
    else throw (unexpected keyword)

unfoldable pub announce_loop : ℕ → ℕ → Words → Act Words
unfolding announce_round
announce_loop p zero w = pure w
announce_loop p (suc rounds) w = announce_round p w >>= announce_loop p rounds

unfoldable pub handle_announce : ℕ → Stream → Act (Unit {0})
unfolding announce_loop load_peer store_peer send_ok
handle_announce p line = do
  k ← load_peer p
  (if k.announced then throw (codes "already announced") else do
    w ← announce_loop p 3 (words line)
    (if not w.listen || (not w.seed || not w.leech)
        then throw (codes "invalid request")
        else do k ← load_peer p; store_peer p (record k { announced = true }); send_ok p))

-- one round of the loop of `handleUpdate`: both lists are read as lists of downloads
unfoldable pub update_round : ℕ → Words → Act Words
unfolding read_word bracketed parse_announce_leech unexpected
update_round p w =
    let (keyword, line) = read_word w.line w.keyword in
    let (argument, rest) = bracketed line w.argument in
    let next : Words = record w { line = rest; keyword = keyword; argument = argument } in
    if str_eq keyword (codes "seed")
    then parse_announce_leech p argument >> pure (record next { seed = true })
    else if str_eq keyword (codes "leech")
    then parse_announce_leech p argument >> pure (record next { leech = true })
    else throw (unexpected keyword)

unfoldable pub update_loop : ℕ → ℕ → Words → Act Words
unfolding update_round
update_loop p zero w = pure w
update_loop p (suc rounds) w = update_round p w >>= update_loop p rounds

unfoldable pub announced_only : {A : Type 0} → ℕ → Act A → Act A
unfolding load_peer
announced_only p m = do k ← load_peer p; (if k.announced then m else throw (codes "not announced."))

unfoldable pub handle_update : ℕ → Stream → Act (Unit {0})
unfolding update_loop announced_only send_ok
handle_update p line = announced_only p do
  w ← update_loop p 2 (words line)
  (if not w.seed || not w.leech then throw (codes "invalid request") else send_ok p)

-- the files of the set for which the predicate holds
unfoldable pub keep_files : (File → Bytes → Option Bool) → Bytes → List ℕ → Act (List ℕ)
unfolding load_file
keep_files predicate argument [] = pure []
keep_files predicate argument (f ∷ files) = do
  x ← load_file f
  elim (predicate x argument) [
    | none ↦ λ s. some (throws_std, s)
    | some b ↦ do rest ← keep_files predicate argument files; pure (if b then f ∷ rest else rest)
  ]

unfoldable pub apply_criterion : Criterion → Bytes → List ℕ → Act (List ℕ)
unfolding quoted_argument keep_files
apply_criterion c value files = elim (quoted_argument c value) [
  | none ↦ λ s. some (throws_std, s)
  | some arg ↦ keep_files c.predicate arg files
]

-- the first criterion that matches
unfoldable pub parse_criterion : List Criterion → Bytes → List ℕ → Act (List ℕ)
unfolding matches apply_criterion
parse_criterion [] criterion files = pure []
parse_criterion (c ∷ cs) criterion files =
    let later = parse_criterion cs criterion files in
    if matches c criterion then apply_criterion c criterion files else later

unfoldable pub look_loop : List Bytes → List ℕ → Act (List ℕ)
unfolding parse_criterion criterions
look_loop [] files = pure files
look_loop (value ∷ v) files = parse_criterion criterions value files >>= look_loop v

-- the files with a space before each but the first
unfoldable pub listed : Bool → List ℕ → Act Bytes
unfolding load_file to_string
listed first [] = pure []
listed first (f ∷ files) = do
  x ← load_file f
  rest ← listed false files
  pure ((if first then [] else codes " ") ++ (to_string x ++ rest))

unfoldable pub file_list_string : List ℕ → Act Bytes
unfolding listed
file_list_string files = do text ← listed true files; pure (codes "list [" ++ (text ++ codes "]\n"))

unfoldable pub parse_look : ℕ → Bytes → Act (Unit {0})
unfolding split look_loop file_list_string write_text
parse_look p look s =
    (do
      files ← look_loop (split look b' ') s.files.file_set
      text ← file_list_string files
      write_text p text)
      s

unfoldable pub handle_look : ℕ → Stream → Act (Unit {0})
unfolding announced_only bracketed parse_look
handle_look p line = announced_only p (parse_look p (bracketed line []).0)

-- `to_string` of a peer
unfoldable pub peer_string : Peer → Bytes
unfolding ip_stringify decimal
peer_string k = ip_stringify k.addr ++ (codes ":" ++ decimal k.listening_port)

-- the peers but `p`, with a space before each but the first
unfoldable pub other_peers : ℕ → Bool → List ℕ → Act Bytes
unfolding load_peer peer_string
other_peers p first [] = pure []
other_peers p first (q ∷ peers) = if q == p then other_peers p first peers else do
  k ← load_peer q
  rest ← other_peers p false peers
  pure ((if first then [] else codes " ") ++ (peer_string k ++ rest))

unfoldable pub peer_list_string : ℕ → File → Act Bytes
unfolding other_peers
peer_list_string p x = do
  text ← other_peers p true x.peers
  pure (codes "peers " ++ (x.hash ++ (codes " [" ++ (text ++ codes "]\n"))))

-- of a file that is not there the hash is read through a NULL pointer
unfoldable pub answer_getfile : ℕ → Bytes → Act (Unit {0})
unfolding get load_file peer_list_string write_text
answer_getfile p key s = elim (get s.files key) [
  | none ↦ none
  | some f ↦ (do x ← load_file f; text ← peer_list_string p x; write_text p text) s
]

unfoldable pub handle_getfile : ℕ → Stream → Act (Unit {0})
unfolding announced_only read_word answer_getfile
handle_getfile p line = announced_only p (answer_getfile p (read_word line []).0)
