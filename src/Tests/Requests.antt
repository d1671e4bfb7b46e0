-- ===== src/Tests/Requests.antt =====
-- tracker/protocol.c, file.c and client.c at concrete inputs.
use mathlib.Core.Path.{subst}
use raiezau.Base.{
  map, ◌⊎◌, ℕ, zero, suc, Option, get_elem?, ap, ◌&&◌, ◌||◌, ◌≡◌, refl, false, none, some, List, [],
  ◌∷◌, arith, if◌then◌else◌,
}
use raiezau.Base.Bytes.{Bytes, codes, str_eq}
use raiezau.Cutil.HashTable
use raiezau.Cutil.HashTable.{success}
use raiezau.Cutil.HashTable.Laws.{IsMap}
use raiezau.Cutil.Text.{string_split}
use raiezau.Cutil.Text.Copies.{before_either}
use raiezau.Cutil.Uthash.{Uthash, assoc, assoc_find}
use raiezau.Tracker.Client.{client_dec_ref}
use raiezau.Tracker.File.Peers.{or_else, member, peer_at, IsTabled}
use raiezau.Tracker.Client.Removal.{client_dec_ref_last}
use raiezau.Tracker.File.{file_list, file_get_by_key, file_get_or_create, new_object}
use raiezau.Tracker.File.Registry.{IsRegistry, file_get_or_create_new}
use raiezau.Tracker.Look.{geq, lt, prot_look_process_criterions}
use raiezau.Tracker.Look.Select.{Criteria, count, request, meets, prot_look_process_criterions_lem}
use raiezau.Tracker.Protocol.{
  Handler, get_request_handler, prot_getfile, str_trim_prot_getfile, substring,
  seed_leech_match_and_parse, endpoints, get_seed_file_list,
}
use raiezau.Tracker.Protocol.Dispatch.{handler_of, get_request_handler_lem}
use raiezau.Tracker.Protocol.Getfile.{answer, reply, peers, listens, prot_getfile_known}
use raiezau.Tracker.Env.{atoi}
use raiezau.Tracker.Protocol.Joining.{seed_leech_match_and_parse_lem}
use raiezau.Tracker.Protocol.Seeds.{IsMade, seed_keys, grouped, has_key, found}
use raiezau.Tracker.Protocol.Stale.{update-freed}
use raiezau.Tracker.State.{Client, File, State, load_client}

abbrev u : Uthash ℕ
u = assoc ℕ

abbrev key : Bytes
key = codes "0123456789abcdef0123456789abcdef"

abbrev file : File u
file = record {
  filename = codes "f";
  md5_str = key;
  length = 10;
  piece_count = 2;
  piece_size = 5;
  clients = (codes "1.2.3.4:80", 0) ∷ (codes "1.2.3.5:81", 1) ∷ [];
}

abbrev peer : ℕ → Bytes → Client
peer socket address = record {
  socket = socket;
  addr = record { a = 1; b = 2; c = 3; d = 4; port = 9000 };
  conn_addr_key = codes "1.2.3.4:9000";
  listening_port = 80;
  listen_addr_key = some address;
  files_seed = 0 ∷ [];
  files_leech = [];
  ref_count = 1;
  can_rehear = false;
}

-- One file, and two clients that have it.
abbrev shared : State u
shared = record {
  files = file ∷ [];
  file_by_hash = (key, 0) ∷ [];
  file_by_name = (codes "f", 0) ∷ [];
  name_lists = (0 ∷ []) ∷ [];
  clients = [];
  client_at = some (peer 5 (codes "1.2.3.4:80")) ∷ some (peer 6 (codes "1.2.3.5:81")) ∷ [];
  sent = [];
}

update-freed_example :
    (s₁ s₂ : State u) × (seed_leech_match_and_parse u 0 (codes "[][]") (1, 1) (3, 3) shared
      ≡ some (tt, s₁))
    × (client_dec_ref u 0 s₁ ≡ some (tt, s₂))
    × (endpoints u 1 (some 0) s₂ ≡ none)
unfolding string_split substring
update-freed_example =
    update-freed shared 0 1 0 (peer 5 (codes "1.2.3.4:80")) file (codes "1.2.3.4:80") []
      ((codes "1.2.3.5:81", 1) ∷ []) (codes "[][]") (1, 1) (3, 3) refl (omega arith) refl refl
      (omega arith) refl refl

abbrev registered : State u
registered = record shared { clients = (codes "1.2.3.4:9000", 0) ∷ (codes "1.2.3.5:9000", 1) ∷ [] }

abbrev file_or : Option (File u) → File u
file_or none = file
file_or (some x) = x

registered-IsTabled : IsTabled registered
unfolding str_eq
registered-IsTabled zero x e = subst (λ y. IsMap u y.clients) (ap file_or e) ((refl, tt), (tt, tt))
registered-IsTabled (suc g) x e = absurd (grind arith)

client_dec_ref_last_example :
    (t : State u) × (client_dec_ref u 0 registered ≡ some (tt, t))
    × (get_elem? t.client_at 0 ≡ some none)
    × ((addr : Bytes)
        → HashTable.get_entry u t.clients addr ≡ (
            if str_eq (codes "1.2.3.4:9000") addr
            then none
            else HashTable.get_entry u registered.clients addr))
    × IsTabled t
    × ((g : ℕ) (j : Bytes)
        → peer_at t g j ≡ (
            if str_eq (codes "1.2.3.4:80") j && (member g (0 ∷ []) || member g [])
            then none
            else peer_at registered g j))
unfolding str_eq
client_dec_ref_last_example =
    client_dec_ref_last 0 (peer 5 (codes "1.2.3.4:80")) (codes "1.2.3.4:80") registered refl refl
      (omega arith) ((refl, tt), (tt, tt)) registered-IsTabled (omega arith, tt) tt

abbrev criteria : Criteria
criteria = (geq, codes "5") ∷ (lt, codes "20") ∷ []

prot_look_process_criterions_lem_example :
    (l : List ℕ) × (prot_look_process_criterions u shared (request criteria) ≡ some l)
    × ((p : ℕ)
        → count p l ≡ (if meets shared.files criteria p then count p (file_list u shared) else 0))
prot_look_process_criterions_lem_example =
    prot_look_process_criterions_lem u shared criteria (omega arith)

prot_getfile_known_example :
    prot_getfile u 0 key shared
    ≡ some (
      success,
      reply shared 5 (answer shared (str_trim_prot_getfile key) (peers shared 0 file.clients)),
    )
unfolding str_trim_prot_getfile listens assoc_find file_get_by_key load_client str_eq
prot_getfile_known_example =
    prot_getfile_known shared 0 0 (peer 5 (codes "1.2.3.4:80")) file key refl refl refl refl
      ((λ ne. absurd (ne refl)), ((λ _. (codes "1.2.3.5:81", refl)), tt))

-- The tracker with no file.
abbrev nothing : State u
nothing = record {
  files = [];
  file_by_hash = [];
  file_by_name = [];
  name_lists = [];
  clients = [];
  client_at = [];
  sent = [];
}

nothing-IsRegistry : IsRegistry nothing
unfolding file_get_by_key assoc_find
nothing-IsRegistry = record {
  distinct = tt;
  sound = λ k p h. ground arith;
  complete = λ p x h. ground arith;
}

-- A tracker with no file and one client.
abbrev lonely : State u
lonely = record nothing { client_at = some (peer 5 (codes "1.2.3.4:80")) ∷ [] }

lonely-IsRegistry : IsRegistry lonely
unfolding file_get_by_key assoc_find
lonely-IsRegistry = record {
  distinct = tt;
  sound = λ k p e. absurd (grind arith);
  complete = λ p x e. absurd (grind arith);
}

-- a seed, and behind it an empty text
abbrev seed_text : Bytes
seed_text = codes "f 10 5 0123456789abcdef0123456789abcdef"

seed_leech_match_and_parse_lem_example :
    let seeds = grouped (string_split (substring seed_text (0, 39)) (codes " ")) in
    let leeches = string_split (substring seed_text (39, 39)) (codes " ") in
    (seed leech : List ℕ) × (s₁ t : State u) × (get_seed_file_list u
        (substring seed_text (0, 39))
        lonely
      ≡ some (seed, s₁))
    × (seed_leech_match_and_parse u 0 seed_text (0, 39) (39, 39) lonely ≡ some (tt, t))
    × (map (file_get_by_key u t) (seed_keys seeds) ≡ map some seed)
    × (leech ≡ found (map (file_get_by_key u t) leeches))
    × ((j : Bytes) (g : ℕ) → file_get_by_key u lonely j ≡ some g → file_get_by_key u t j ≡ some g)
    × ((j : Bytes)
        → has_key j (seed_keys seeds) ≡ false
        → file_get_by_key u t j ≡ file_get_by_key u lonely j)
    × ((g : ℕ) (y : File u)
        → get_elem? s₁.files g ≡ some y
        → (get_elem? lonely.files g ≡ some y) ⊎ IsMade u seeds y)
    × (get_elem? t.client_at 0
        ≡ some (
            some (record (peer 5 (codes "1.2.3.4:80")) { files_seed = seed; files_leech = leech })))
    × IsTabled t
    × ((g : ℕ) (j : Bytes)
        → peer_at t g j ≡ (
            if str_eq (codes "1.2.3.4:80") j && (member g seed || member g leech)
            then or_else (peer_at lonely g j) 0
            else peer_at lonely g j))
unfolding substring string_split atoi
seed_leech_match_and_parse_lem_example =
    seed_leech_match_and_parse_lem 0 (peer 5 (codes "1.2.3.4:80")) (codes "1.2.3.4:80") seed_text
      (0, 39) (39, 39) lonely refl refl lonely-IsRegistry (λ g x e. absurd (grind arith))
      ((λ e. omega arith), tt)

-- the text has one seed
one_seed : seed_keys (grouped (string_split (substring seed_text (0, 39)) (codes " "))) ≡ key ∷ []
unfolding seed_keys grouped string_split substring
one_seed = refl

file_get_or_create_new_example :
    (s' : State u) × (file_get_or_create u (codes "f") 10 5 key nothing ≡ some (0, s'))
    × IsRegistry s'
    × (s'.client_at ≡ nothing.client_at)
    × (s'.files ≡ new_object u (codes "f") 10 5 key ∷ [])
    × ((j : Bytes)
        → file_get_by_key u s' j ≡ (if str_eq key j then some 0 else file_get_by_key u nothing j))
unfolding file_get_by_key assoc_find
file_get_or_create_new_example =
    file_get_or_create_new u (codes "f") 10 5 key nothing nothing-IsRegistry refl (omega arith)

get_request_handler_lem_example :
    get_request_handler (assoc Handler) (codes "look [a]")
    ≡ handler_of (before_either b' ' b'\n' (codes "look [a]"))
get_request_handler_lem_example =
    get_request_handler_lem (assoc Handler) (codes "look [a]") (ground arith)
