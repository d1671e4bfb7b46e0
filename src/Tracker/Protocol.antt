-- ===== src/Tracker/Protocol.antt =====
-- tracker/protocol.c: one request of a client, from its text to the answer. A handler's `int` is a
-- `Status`: 0 or -1. Of a client only its address is passed on, as in the source.
pub mod Dispatch
pub mod Getfile
pub mod Stale
pub mod Joining
pub mod Seeds
pub mod SeedList
pub mod Serve
pub mod References
use raiezau.Base.{
  ℕ, zero, suc, ◌+◌, ◌-◌, ◌%◌, ◌^◌, Bool, true, false, not, Option, none, some, List, [], ◌∷◌, ◌++◌,
  ◌==◌, if◌then◌else◌, length, take, drop, ◌||◌,
}
use raiezau.Base.Bytes.{Bytes, codes}
use raiezau.Cutil.HashTable
use raiezau.Cutil.HashTable.{Status, success, failure}
use raiezau.Cutil.Text.{c_string, str_replace_char, string_split, asprintf}
use raiezau.Cutil.Uthash.{Uthash}
use raiezau.Tracker.Client.{client_set_listening_port, client_dec_ref}
use raiezau.Tracker.Env.{Posix, atoi, atol, isspace, skip_space}
use raiezau.Tracker.File.{file_get_or_create, file_get_by_key, file_add_client}
use raiezau.Tracker.Look.{prot_look_process_criterions, prot_look_build_file_list}
use raiezau.Tracker.State.{
  Client, File, State, Cmd, pure, ◌>>=◌, ◌>>◌, modify, load_file, load_client, store_client,
  non_null,
}

-- the functions that `request_handlers` points to
pub data Handler : Type 0 where
  announce update look getfile : Handler

-- `req_name` and what follows it, as `sscanf(req, " %ms %n", …)` splits it; `none` if nothing matches
unfoldable pub first_word : Bytes → Bytes
unfolding isspace
first_word [] = []
first_word (c ∷ s) = if isspace c then [] else c ∷ first_word s

unfoldable pub after_word : Bytes → Bytes
unfolding isspace
after_word [] = []
after_word (c ∷ s) = if isspace c then c ∷ s else after_word s

unfoldable pub scan_request : Bytes → Option (Bytes × Bytes)
unfolding first_word after_word skip_space
scan_request req = elim (skip_space req) [
  | [] ↦ none
  | c ∷ s ↦ some (first_word (c ∷ s), skip_space (after_word (c ∷ s)))
]

module _ (handlers : Uthash Handler) where
  -- `protocol_init`
  unfoldable pub request_handlers : handlers.Table
  unfolding HashTable.create HashTable.add_entry
  request_handlers =
      let h = HashTable.create handlers in
      let h = HashTable.add_entry handlers h (codes "announce") announce in
      let h = HashTable.add_entry handlers h (codes "update") update in
      let h = HashTable.add_entry handlers h (codes "look") look in
      HashTable.add_entry handlers h (codes "getfile") getfile

  -- `none` is NULL
  unfoldable pub get_request_handler : Bytes → Option Handler
  unfolding request_handlers HashTable.get_entry c_string str_replace_char
  get_request_handler buf_c =
      let tmp = c_string (str_replace_char buf_c b' ' 0) in
      let buf = c_string (str_replace_char tmp b'\n' 0) in
      HashTable.get_entry handlers request_handlers buf

-- `strndup(req + so, eo - so)`
unfoldable pub substring : Bytes → ℕ × ℕ → Bytes
substring req (so, eo) = take (eo - so) (drop so req)

-- up to the first newline
unfoldable pub str_trim_prot_getfile : Bytes → Bytes
str_trim_prot_getfile [] = []
str_trim_prot_getfile (c ∷ req) = if c == b'\n' then [] else c ∷ str_trim_prot_getfile req

abbrev pub keyhash_strsize : ℕ
keyhash_strsize = 32

abbrev pub announce_regexp : Bytes
announce_regexp = codes "listen ([0-9]{1,5}) seed \\[(.*)\\] leech \\[(.*)\\]"

abbrev pub update_regexp : Bytes
update_regexp = codes "seed \\[(.*)\\] leech \\[(.*)\\] *"

abbrev pub look_regexp : Bytes
look_regexp = codes "\\[(.*)\\] *"

module _ (u : Uthash ℕ) where
  -- `socket_write_string` of the whole text
  unfoldable pub write_string : ℕ → Bytes → Cmd u (Unit {0})
  write_string sock str = modify (λ s. record s { sent = s.sent ++ (sock, str) ∷ [] })

  unfoldable pub negative_answer : ℕ → Cmd u (Unit {0})
  unfolding write_string
  negative_answer sock = write_string sock (codes "error\n")

  unfoldable pub write_ok : ℕ → Cmd u (Unit {0})
  unfolding write_string
  write_ok sock = write_string sock (codes "ok\n")

  -- the loop of `get_seed_file_list`, four words a round
  unfoldable pub seed_loop : List Bytes → Cmd u (List ℕ)
  unfolding file_get_or_create
  seed_loop (name ∷ size ∷ piece ∷ key ∷ rest) = do
    f ← file_get_or_create u name (atol size % 2 ^ 32) (atoi piece) key
    l ← seed_loop rest
    pure (f ∷ l)
  seed_loop _ = pure []

  unfoldable pub get_seed_file_list : Bytes → Cmd u (List ℕ)
  unfolding seed_loop
  get_seed_file_list seed_str =
      let tab = string_split seed_str (codes " ") in
      if not (length tab % 4 == 0) then pure [] else seed_loop tab

  unfoldable pub leech_loop : State u → List Bytes → List ℕ
  unfolding file_get_by_key
  leech_loop s [] = []
  leech_loop s (key ∷ tab) = elim (file_get_by_key u s key) [
    | none ↦ leech_loop s tab
    | some f ↦ f ∷ leech_loop s tab
  ]

  unfoldable pub get_leech_file_list : Bytes → Cmd u (List ℕ)
  unfolding leech_loop
  get_leech_file_list leech_str s = some (leech_loop s (string_split leech_str (codes " ")), s)

  -- `list_each_r(files, file_add_client, c)`
  unfoldable pub add_client_to_files : ℕ → List ℕ → Cmd u (Unit {0})
  unfolding file_add_client
  add_client_to_files c [] = pure tt
  add_client_to_files c (f ∷ files) = do file_add_client u f c; add_client_to_files c files

  unfoldable pub set_files : ℕ → List ℕ → List ℕ → Cmd u (Unit {0})
  unfolding load_client store_client
  set_files c seed leech = do
    k ← load_client c
    store_client c (record k { files_seed = seed; files_leech = leech })

  unfoldable pub seed_leech_match_and_parse : ℕ → Bytes → ℕ × ℕ → ℕ × ℕ → Cmd u (Unit {0})
  seed_leech_match_and_parse c req seed_match leech_match = do
    seed ← get_seed_file_list (substring req seed_match)
    leech ← get_leech_file_list (substring req leech_match)
    set_files c seed leech
    add_client_to_files c seed
    add_client_to_files c leech

  unfoldable pub announce_match_and_parse : ℕ → Bytes → (ℕ → ℕ × ℕ) → Cmd u (Unit {0})
  unfolding client_set_listening_port seed_leech_match_and_parse
  announce_match_and_parse c req pmatch = do
    client_set_listening_port u c (atoi (drop (pmatch 1).0 req) % 2 ^ 16)
    seed_leech_match_and_parse c req (pmatch 2) (pmatch 3)

  unfoldable pub update_match_and_parse : ℕ → Bytes → (ℕ → ℕ × ℕ) → Cmd u (Unit {0})
  unfolding seed_leech_match_and_parse
  update_match_and_parse c req pmatch = seed_leech_match_and_parse c req (pmatch 1) (pmatch 2)

  -- `getfile` sends every client of the table but the one that asks
  unfoldable pub build_step : ℕ → ℕ → Bytes → Cmd u Bytes
  unfolding load_client non_null
  build_step current c output = if c == current then pure output else do
    k ← load_client c
    key ← non_null k.listen_addr_key
    pure (asprintf (output ++ (codes " " ++ key))).0

  unfoldable pub build_peer_loop : ℕ → List (Bytes × ℕ) → Bytes → Cmd u Bytes
  build_peer_loop current [] output = pure output
  build_peer_loop current ((n, c) ∷ es) output = do
    output ← build_step current c output
    build_peer_loop current es output

  unfoldable pub build_peer_string_list : ℕ → u.Table → Cmd u Bytes
  build_peer_string_list current cli = build_peer_loop current (u.entries cli) []

  unfoldable pub getfile_answer : ℕ → Bytes → Bytes → Cmd u Status
  getfile_answer c key endpoints_list = do
    k ← load_client c
    write_string k.socket
        (asprintf (codes "peers " ++ (key ++ (codes " [" ++ (endpoints_list ++ codes "]\n"))))).0
    pure success

  unfoldable pub endpoints : ℕ → Option ℕ → Cmd u Bytes
  endpoints c none = pure []
  endpoints c (some f) = do x ← load_file f; build_peer_string_list c x.clients

  unfoldable pub prot_getfile : ℕ → Bytes → Cmd u Status
  prot_getfile c req_value s =
      let key = str_trim_prot_getfile req_value in
      let found = file_get_by_key u s key in
      if not (length key == keyhash_strsize)
      then some (failure, s)
      else (endpoints c found >>= getfile_answer c key) s
