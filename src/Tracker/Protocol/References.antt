-- ===== src/Tracker/Protocol/References.antt =====
-- The handlers and the reference counts of the clients.
pub mod Joins
use raiezau.Base.{
  ℕ, ◌%◌, ◌^◌, ◌≡◌, refl, ap, ◌∙◌, true, false, Option, none, some, List, [], ◌∷◌, ◌++◌, ◌==◌,
  arith, set, drop, length, if◌then◌else◌, Bool-cases, Option-cases, inl, inr, not,
}
use raiezau.Base.Bytes.{Bytes, codes}
use raiezau.Cutil.HashTable
use raiezau.Cutil.HashTable.{Status, success, failure}
use raiezau.Cutil.Text.{string_split, asprintf}
use raiezau.Cutil.Uthash.{Uthash}
use raiezau.Tracker.Client.{client_set_listening_port, ip_stringify}
use raiezau.Tracker.Client.Counts
use raiezau.Tracker.Client.Neutral.{
  IsNeutral, SameRefs, >>=-IsNeutral, cells-IsNeutral, pure-IsNeutral, load_client-IsNeutral,
  load_file-IsNeutral, store_file-IsNeutral, non_null-IsNeutral, update-IsNeutral,
}
use raiezau.Tracker.Env.{Posix, atoi, atol, decimal}
use raiezau.Tracker.File.{
  push_name, file_register, new_object, file_new, file_add_client, file_get_or_create,
  file_get_by_key,
}
use raiezau.Tracker.Protocol.{
  Handler, announce, update, look, getfile, write_string, negative_answer, write_ok, seed_loop,
  get_seed_file_list, get_leech_file_list, leech_loop, add_client_to_files, set_files,
  seed_leech_match_and_parse, announce_match_and_parse, update_match_and_parse, build_step,
  build_peer_loop, build_peer_string_list, getfile_answer, endpoints, prot_getfile, substring,
  get_request_handler, scan_request, announce_regexp, update_regexp, look_regexp,
  str_trim_prot_getfile, keyhash_strsize,
}
use raiezau.Tracker.Protocol.Serve.{
  regex_exec, prot_announce, prot_update, look_answer, prot_look, call, get_and_call_handler, serve,
}
use raiezau.Tracker.State.{
  State, File, Client, Cmd, pure, ◌>>=◌, ◌>>◌, load_client, load_file, non_null, store_client,
}
use raiezau.Tracker.Protocol.References.Joins.{
  write_string-IsNeutral, written-IsNeutral, parse-IsNeutral, announced-IsNeutral,
}

module _ {u : Uthash ℕ} where
  peer-IsNeutral : (c d : ℕ) (output : Bytes) → IsNeutral (build_step u c d output)
  unfolding build_step
  peer-IsNeutral c d output = elim (Bool-cases (d == c)) [
    | inl e ↦ rw (build_step, e) (pure-IsNeutral output)
    | inr e ↦
        rw (build_step, e)
          (>>=-IsNeutral (load_client d) _ (load_client-IsNeutral d) λ k.
            >>=-IsNeutral (non_null k.listen_addr_key) _ (non_null-IsNeutral k.listen_addr_key)
              λ key. pure-IsNeutral _)
  ]

  module _ (posix : Posix) where
    prot_announce-IsNeutral : (c : ℕ) (req : Bytes) → IsNeutral (prot_announce u posix c req)
    unfolding prot_announce write_ok
    prot_announce-IsNeutral c req = elim (Option-cases (regex_exec u posix announce_regexp req)) [
      | inl e ↦ rw (prot_announce, e) (pure-IsNeutral failure)
      | inr (pmatch, e) ↦
          rw (prot_announce, e)
            (>>=-IsNeutral (announce_match_and_parse u c req pmatch) _
              (announced-IsNeutral c req pmatch)
              λ _. written-IsNeutral c (λ _. codes "ok\n") success)
    ]

    prot_update-IsNeutral : (c : ℕ) (req : Bytes) → IsNeutral (prot_update u posix c req)
    unfolding prot_update write_ok update_match_and_parse
    prot_update-IsNeutral c req = elim (Option-cases (regex_exec u posix update_regexp req)) [
      | inl e ↦ rw (prot_update, e) (pure-IsNeutral failure)
      | inr (pmatch, e) ↦
          rw (prot_update, e)
            (>>=-IsNeutral (update_match_and_parse u c req pmatch) _
              (parse-IsNeutral c req (pmatch 1) (pmatch 2))
              λ _. written-IsNeutral c (λ _. codes "ok\n") success)
    ]

    -- the criteria are read in the state that the answer leaves as it is
    look_answer-IsNeutral :
        (text : Bytes)
        → IsNeutral {u = u}
            (λ s. elim (look_answer u posix s text) [ none ↦ none | some r ↦ some (r, s) ])
    look_answer-IsNeutral text = cells-IsNeutral _ (λ s r t e. ground arith)

    prot_look-IsNeutral : (c : ℕ) (req : Bytes) → IsNeutral (prot_look u posix c req)
    unfolding prot_look
    prot_look-IsNeutral c req s a t h = elim (Option-cases (regex_exec u posix look_regexp req)) [
      | inl e ↦ pure-IsNeutral failure s a t (rw (prot_look, e) at h)
      | inr (pmatch, e) ↦
          >>=-IsNeutral
            (λ s. elim (look_answer u posix s (substring req (pmatch 1))) [
              | none ↦ none
              | some r ↦ some (r, s)
            ])
            _ (look_answer-IsNeutral (substring req (pmatch 1)))
            (λ r. written-IsNeutral c (λ _. r) success) s a t (rw (prot_look, e) at h)
    ]

    peers-IsNeutral :
        (c : ℕ) (es : List (Bytes × ℕ)) (output : Bytes) → IsNeutral (build_peer_loop u c es output)
    unfolding build_peer_loop
    peers-IsNeutral c [] output = pure-IsNeutral output
    peers-IsNeutral c ((n, d) ∷ es) output =
        >>=-IsNeutral (build_step u c d output) _ (peer-IsNeutral c d output)
          λ output'. peers-IsNeutral c es output'

    endpoints-IsNeutral : (c : ℕ) (found : Option ℕ) → IsNeutral (endpoints u c found)
    unfolding endpoints build_peer_string_list
    endpoints-IsNeutral c none = pure-IsNeutral []
    endpoints-IsNeutral c (some f) =
        >>=-IsNeutral (load_file f) _ (load_file-IsNeutral f)
          λ x. peers-IsNeutral c (u.entries x.clients) []

    prot_getfile-IsNeutral : (c : ℕ) (req : Bytes) → IsNeutral (prot_getfile u c req)
    unfolding prot_getfile getfile_answer
    prot_getfile-IsNeutral c req s a t h =
        let key = str_trim_prot_getfile req in
        elim (Bool-cases (length key == keyhash_strsize)) [
          | inr e ↦ pure-IsNeutral failure s a t (rw (prot_getfile, e) at h)
          | inl e ↦
              >>=-IsNeutral (endpoints u c (file_get_by_key u s key)) (getfile_answer u c key)
                (endpoints-IsNeutral c (file_get_by_key u s key))
                (λ peers.
                  written-IsNeutral c
                    (λ _.
                      (asprintf
                        (codes "peers " ++ (key ++ (codes " [" ++ (peers ++ codes "]\n"))))).0)
                    success)
                s a t (rw (prot_getfile, e) at h)
        ]

    call-IsNeutral :
        (handler : Handler) (c : ℕ) (req : Bytes) → IsNeutral (call u posix handler c req)
    unfolding call
    call-IsNeutral announce = prot_announce-IsNeutral
    call-IsNeutral update = prot_update-IsNeutral
    call-IsNeutral look = prot_look-IsNeutral
    call-IsNeutral getfile = prot_getfile-IsNeutral

    negative_answer-IsNeutral :
        (c : ℕ) → IsNeutral (load_client c >>= λ k. negative_answer u k.socket)
    unfolding negative_answer
    negative_answer-IsNeutral c =
        >>=-IsNeutral (load_client c) _ (load_client-IsNeutral c)
          λ k. write_string-IsNeutral k.socket (codes "error\n")

    answered-IsNeutral :
        (c : ℕ) (r : Status)
        → IsNeutral {u = u} (elim r [
          | success ↦ pure tt
          | failure ↦ load_client c >>= λ k. negative_answer u k.socket
        ])
    answered-IsNeutral c success = pure-IsNeutral tt
    answered-IsNeutral c failure = negative_answer-IsNeutral c

    module _ (handlers : Uthash Handler) where
      handler-IsNeutral :
          (c : ℕ) (name value : Bytes)
          → IsNeutral (get_and_call_handler u posix handlers c name value)
      unfolding get_and_call_handler
      handler-IsNeutral c name value = elim (Option-cases (get_request_handler handlers name)) [
        | inl e ↦ rw (get_and_call_handler, e) (negative_answer-IsNeutral c)
        | inr (handler, e) ↦
            rw (get_and_call_handler, e)
              (>>=-IsNeutral (call u posix handler c value) _ (call-IsNeutral handler c value)
                (answered-IsNeutral c))
      ]

      served-IsNeutral :
          (c : ℕ) (k : Client) (read : Option (ℕ × Bytes))
          → IsNeutral {u = u} (elim read [
            | none ↦ negative_answer u k.socket
            | some (rd, client_req) ↦
                if rd == 0 then negative_answer u k.socket else elim (scan_request client_req) [
                  | none ↦ negative_answer u k.socket
                  | some (name, value) ↦ get_and_call_handler u posix handlers c name value
                ]
          ])
      unfolding negative_answer
      served-IsNeutral c k none = write_string-IsNeutral k.socket (codes "error\n")
      served-IsNeutral c k (some (rd, req)) = elim (Bool-cases (rd == 0)) [
        | inl e ↦ rw e (write_string-IsNeutral k.socket (codes "error\n"))
        | inr e ↦ elim (Option-cases (scan_request req)) [
          | inl n ↦ rw (e, n) (write_string-IsNeutral k.socket (codes "error\n"))
          | inr ((name, value), n) ↦ rw (e, n) (handler-IsNeutral c name value)
        ]
      ]

      -- Whatever a client sends, and whichever handler serves it, no client is freed and no reference
      -- count changes, if the handler returns.
      pub serve-SameRefs :
          (c : ℕ) (read : Option (ℕ × Bytes)) (s t : State u)
          → serve u posix handlers c read s ≡ some (tt, t)
          → SameRefs s t
      unfolding serve
      serve-SameRefs c read s t =
          >>=-IsNeutral (load_client c) _ (load_client-IsNeutral c) (λ k. served-IsNeutral c k read)
            s tt t
