-- ===== src/Tracker/Protocol/Serve.antt =====
-- A request of a client from its text to the end of its thread: the handlers that read their
-- arguments by a regular expression, and `handle_request`.
use raiezau.Base.{ℕ, true, Option, none, some, ◌++◌, ◌==◌, if◌then◌else◌}
use raiezau.Base.Bytes.{Bytes, codes}
use raiezau.Cutil.HashTable.{Status, success, failure}
use raiezau.Cutil.Text.{asprintf}
use raiezau.Cutil.Uthash.{Uthash}
use raiezau.Tracker.Client.{client_dec_ref}
use raiezau.Tracker.Env.{Posix}
use raiezau.Tracker.Look.{prot_look_process_criterions, prot_look_build_file_list}
use raiezau.Tracker.State.{State, Cmd, pure, ◌>>=◌, ◌>>◌, load_client, store_client}
use raiezau.Tracker.Protocol.{
  Handler, scan_request, get_request_handler, substring, announce_regexp, update_regexp,
  look_regexp, write_string, negative_answer, write_ok, announce_match_and_parse,
  update_match_and_parse, prot_getfile, announce, update, look, getfile,
}

module _ (u : Uthash ℕ) (posix : Posix) where
  open posix use {regcomp, regexec}

  -- `regex_exec` of tracker/util.c; `none` is -1, a pattern that does not compile included
  unfoldable pub regex_exec : Bytes → Bytes → Option (ℕ → ℕ × ℕ)
  regex_exec regexp str = elim (regcomp regexp) [ none ↦ none | some reg ↦ regexec reg str ]

  unfoldable pub prot_announce : ℕ → Bytes → Cmd u Status
  unfolding regex_exec announce_match_and_parse load_client write_ok
  prot_announce c req_value = elim (regex_exec announce_regexp req_value) [
    | none ↦ pure failure
    | some match ↦ do
      announce_match_and_parse u c req_value match
      k ← load_client c
      write_ok u k.socket
      pure success
  ]

  unfoldable pub prot_update : ℕ → Bytes → Cmd u Status
  unfolding regex_exec update_match_and_parse load_client write_ok
  prot_update c req_value = elim (regex_exec update_regexp req_value) [
    | none ↦ pure failure
    | some match ↦ do
      update_match_and_parse u c req_value match
      k ← load_client c
      write_ok u k.socket
      pure success
  ]

  unfoldable pub look_answer : State u → Bytes → Option Bytes
  unfolding prot_look_process_criterions prot_look_build_file_list
  look_answer s criterions = elim (prot_look_process_criterions u s criterions) [
    | none ↦ none
    | some l ↦
        some (asprintf (codes "list [" ++ (prot_look_build_file_list u s.files l ++ codes "]\n"))).0
  ]

  unfoldable pub prot_look : ℕ → Bytes → Cmd u Status
  unfolding regex_exec substring look_answer load_client write_string
  prot_look c req_value s = elim (regex_exec look_regexp req_value) [
    | none ↦ some (failure, s)
    | some pmatch ↦
        (do
          response ← (λ s. elim (look_answer s (substring req_value (pmatch 1))) [
            | none ↦ none
            | some r ↦ some (r, s)
          ])
          k ← load_client c
          write_string u k.socket response
          pure success)
          s
  ]

  -- the call through the function pointer
  unfoldable pub call : Handler → ℕ → Bytes → Cmd u Status
  unfolding prot_announce prot_update prot_look prot_getfile
  call announce = prot_announce
  call update = prot_update
  call look = prot_look
  call getfile = prot_getfile u

  module _ (handlers : Uthash Handler) where
    unfoldable pub get_and_call_handler : ℕ → Bytes → Bytes → Cmd u (Unit {0})
    unfolding get_request_handler call negative_answer load_client
    get_and_call_handler c req_name req_value = elim (get_request_handler handlers req_name) [
      | none ↦ do k ← load_client c; negative_answer u k.socket
      | some handler ↦ do
        r ← call handler c req_value
        elim r [ success ↦ pure tt | failure ↦ do k ← load_client c; negative_answer u k.socket ]
    ]

    -- `read_request` and what `handle_request` does with it, when `socket_read_string` returned -1
    -- (`none`), or a size and a string
    unfoldable pub serve : ℕ → Option (ℕ × Bytes) → Cmd u (Unit {0})
    unfolding get_and_call_handler negative_answer load_client scan_request
    serve c read = do
      k ← load_client c
      elim read [
        | none ↦ negative_answer u k.socket
        | some (rd, client_req) ↦
            if rd == 0 then negative_answer u k.socket else elim (scan_request client_req) [
              | none ↦ negative_answer u k.socket
              | some (name, value) ↦ get_and_call_handler c name value
            ]
      ]

    -- the signal to the network thread and the end of this one change nothing here
    unfoldable pub handle_request : ℕ → Option (ℕ × Bytes) → Cmd u (Unit {0})
    unfolding serve load_client store_client client_dec_ref
    handle_request c read = do
      serve c read
      k ← load_client c
      store_client c (record k { can_rehear = true })
      client_dec_ref u c
