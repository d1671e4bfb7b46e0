-- ===== src/Tracker/Protocol/Getfile.antt =====
-- The answer to `getfile`.
use raiezau.Base.{
  ℕ, ◌≡◌, ◌≢◌, refl, sym, ap, ◌∙◌, true, false, Option, none, some, List, [], ◌∷◌, ◌++◌, ◌==◌,
  arith, if◌then◌else◌, length, get_elem?, append_assoc, append-nil, Bool-cases, inl, inr,
}
use raiezau.Base.Bytes.{Bytes, codes}
use raiezau.Cutil.HashTable.{success}
use raiezau.Cutil.Text.Copies.{asprintf_lem}
use raiezau.Cutil.Uthash.{Uthash}
use raiezau.Tracker.File.{file_get_by_key}
use raiezau.Tracker.Protocol.{
  build_step, build_peer_loop, build_peer_string_list, str_trim_prot_getfile, keyhash_strsize,
  getfile_answer, endpoints, prot_getfile, write_string,
}
use raiezau.Tracker.State.{
  Client, File, State, load_client, load_file, >>=-some, ◌>>=◌, load_file_lem,
}

module _ {u : Uthash ℕ} (s : State u) where
  -- The address that a client listens on, if the client exists and has announced one.
  unfoldable pub listens : ℕ → Option Bytes
  listens c = elim (get_elem? s.client_at c) [
    | none ↦ none
    | some cell ↦ elim cell [ none ↦ none | some k ↦ k.listen_addr_key ]
  ]

  -- Every client among the entries but the one that asks has announced an address.
  abbrev pub Reachable : ℕ → List (Bytes × ℕ) → Type 0
  Reachable current [] = Unit {0}
  Reachable current ((n, c) ∷ es) =
      ((c ≢ current) → (a : Bytes) × (listens c ≡ some a)) × Reachable current es

  -- The addresses of the others, each behind a space.
  unfoldable pub peers : ℕ → List (Bytes × ℕ) → Bytes
  unfolding listens
  peers current [] = []
  peers current ((n, c) ∷ es) =
      (if c == current then [] else elim (listens c) [ none ↦ [] | some a ↦ codes " " ++ a ])
      ++ peers current es

  build_step_self : (c : ℕ) (out : Bytes) → build_step u c c out s ≡ some (out, s)
  unfolding build_step
  build_step_self c out = ground arith

  build_step_other :
      (current c : ℕ) (out a : Bytes)
      → c ≢ current
      → listens c ≡ some a
      → build_step u current c out s ≡ some (out ++ (codes " " ++ a), s)
  unfolding build_step listens
  build_step_other current c out a ne h = ground (arith, asprintf_lem (out ++ (codes " " ++ a)))

  loop_step :
      (current : ℕ) (n : Bytes) (c : ℕ) (es : List (Bytes × ℕ)) (out : Bytes) {out' : Bytes}
      → build_step u current c out s ≡ some (out', s)
      → build_peer_loop u current ((n, c) ∷ es) out s ≡ build_peer_loop u current es out' s
  loop_step current n c es out e =
      unfold build_peer_loop in
      >>=-some (build_step u current c out) (λ out. build_peer_loop u current es out) s e

  peers_other :
      (current : ℕ) (n : Bytes) (c : ℕ) (es : List (Bytes × ℕ)) (a : Bytes)
      → (c == current) ≡ false
      → listens c ≡ some a
      → peers current ((n, c) ∷ es) ≡ (codes " " ++ a) ++ peers current es
  peers_other current n c es a e h = unfold peers in rw (e, h) refl

  peers_self :
      (current : ℕ) (n : Bytes) (c : ℕ) (es : List (Bytes × ℕ))
      → (c == current) ≡ true
      → peers current ((n, c) ∷ es) ≡ peers current es
  peers_self current n c es e = unfold peers in rw e refl

  build_peer_loop_lem :
      (current : ℕ) (es : List (Bytes × ℕ)) (out : Bytes)
      → Reachable current es
      → build_peer_loop u current es out s ≡ some (out ++ peers current es, s)
  build_peer_loop_lem current [] out h = unfold build_peer_loop peers in rw append-nil
  build_peer_loop_lem current ((n, c) ∷ es) out (one, h) = elim (Bool-cases (c == current)) [
    | inl e ↦
        let self : build_step u current c out s ≡ some (out, s) =
          let same : c ≡ current = ground arith in rw (← same) (build_step_self c out) in
        loop_step current n c es out self
        ∙ build_peer_loop_lem current es out h
        ∙ ap (λ t. some (out ++ t, s)) (sym (peers_self current n c es e))
    | inr e ↦
        let ne : c ≢ current = ground arith in
        let (a, at) = one ne in
        loop_step current n c es out (build_step_other current c out a ne at)
        ∙ build_peer_loop_lem current es (out ++ (codes " " ++ a)) h
        ∙ ap (λ t. some (t, s)) (append_assoc out (codes " " ++ a) (peers current es))
        ∙ ap (λ t. some (out ++ t, s)) (sym (peers_other current n c es a e at))
  ]

  -- The text of an answer to `getfile`.
  pub answer : Bytes → Bytes → Bytes
  answer key addresses = codes "peers " ++ (key ++ (codes " [" ++ (addresses ++ codes "]\n")))

  abbrev pub reply : ℕ → Bytes → State u
  reply sock text = record s { sent = s.sent ++ (sock, text) ∷ [] }

  getfile_answer_lem :
      (c : ℕ) (k : Client) (key addresses : Bytes)
      → load_client c s ≡ some (k, s)
      → getfile_answer u c key addresses s ≡ some (success, reply k.socket (answer key addresses))
  getfile_answer_lem c k key addresses live =
      unfold getfile_answer in
      >>=-some (load_client c) _ s live
      ∙ unfold write_string answer in
        ap (λ (t : Bytes × ℕ). some (success, reply k.socket t.0))
          (asprintf_lem (answer key addresses))

  valid_key :
      (c : ℕ) (req : Bytes) (found : Option ℕ)
      → length (str_trim_prot_getfile req) ≡ keyhash_strsize
      → file_get_by_key u s (str_trim_prot_getfile req) ≡ found
      → prot_getfile u c req s
        ≡ (endpoints u c found >>= getfile_answer u c (str_trim_prot_getfile req)) s
  valid_key c req found e f =
      let test : (length (str_trim_prot_getfile req) == keyhash_strsize) ≡ true = ground arith in
      unfold prot_getfile in rw (test, f) refl

  endpoints_lem :
      (c f : ℕ) (x : File u)
      → get_elem? s.files f ≡ some x
      → Reachable c (u.entries x.clients)
      → endpoints u c (some f) s ≡ some (peers c (u.entries x.clients), s)
  endpoints_lem c f x at h =
      unfold endpoints in
      >>=-some (load_file f) _ s (load_file_lem f s at)
      ∙ unfold build_peer_string_list in build_peer_loop_lem c (u.entries x.clients) [] h

  -- `getfile` of a key of 32 bytes that no file has, by a client that exists, is answered on the
  -- client's socket with an empty list of peers, and nothing else changes.
  pub prot_getfile_unknown :
      (c : ℕ) (k : Client) (req : Bytes)
      → load_client c s ≡ some (k, s)
      → length (str_trim_prot_getfile req) ≡ keyhash_strsize
      → file_get_by_key u s (str_trim_prot_getfile req) ≡ none
      → prot_getfile u c req s
        ≡ some (success, reply k.socket (answer (str_trim_prot_getfile req) []))
  prot_getfile_unknown c k req live e unknown =
      valid_key c req none e unknown
      ∙ unfold endpoints in getfile_answer_lem c k (str_trim_prot_getfile req) [] live

  -- `getfile` of a key of 32 bytes that a file has, by a client that exists, is answered on the
  -- client's socket with the listening addresses of the other clients in the file's table, in the
  -- table's order, if each of these clients exists and has announced an address. Nothing else
  -- changes.
  pub prot_getfile_known :
      (c f : ℕ) (k : Client) (x : File u) (req : Bytes)
      → load_client c s ≡ some (k, s)
      → length (str_trim_prot_getfile req) ≡ keyhash_strsize
      → file_get_by_key u s (str_trim_prot_getfile req) ≡ some f
      → get_elem? s.files f ≡ some x
      → Reachable c (u.entries x.clients)
      → prot_getfile u c req s
        ≡ some (
          success,
          reply k.socket (answer (str_trim_prot_getfile req) (peers c (u.entries x.clients))),
        )
  prot_getfile_known c f k x req live e found at h =
      valid_key c req (some f) e found
      ∙ >>=-some (endpoints u c (some f)) (getfile_answer u c (str_trim_prot_getfile req)) s
          (endpoints_lem c f x at h)
      ∙ getfile_answer_lem c k (str_trim_prot_getfile req) (peers c (u.entries x.clients)) live
