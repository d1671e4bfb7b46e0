-- ===== src/TrackerCpp/Peer/Reading.antt =====
-- `readHandler` of Peer.cpp, which finds the requests in what a peer has sent.
use raiezau.Base.{
  ℕ, zero, suc, ◌+◌, ◌%◌, ◌^◌, Bool, true, false, not, ◌||◌, none, some, List, [], ◌∷◌, ◌++◌, ◌==◌,
  ltb, if◌then◌else◌,
}
use raiezau.Base.Bytes.{Bytes, codes}
use raiezau.Cutil.HashTable.Keys.{lookup}
use raiezau.TrackerCpp.CircularBuffer.{have_line, have_word, read_until}
use raiezau.TrackerCpp.Peer.{
  Peer, returns, throws, throws_std, Act, pure, ◌>>=◌, ◌>>◌, load_peer, store_peer, write_text,
}
use raiezau.TrackerCpp.Peer.Requests.{handle_announce, handle_update, handle_look, handle_getfile}
use raiezau.TrackerCpp.Text.{Stream, stream, no_text, read_word, before_first}

abbrev pub max_keyword_size : ℕ
max_keyword_size = 8

abbrev pub max_seq_error_count : ℕ
max_seq_error_count = 5

-- the functions that `sHandlerMap` has
pub data Request : Type 0 where
  announce update look getfile : Request

-- `initHandlers`
abbrev pub s_handler_map : List (Bytes × Request)
s_handler_map =
    (codes "announce", announce)
    ∷ (codes "update", update)
    ∷ (codes "look", look)
    ∷ (codes "getfile", getfile)
    ∷ []

-- the call through the pointer to a member function
unfoldable pub call_handler : Request → ℕ → Stream → Act (Unit {0})
unfolding handle_announce handle_update handle_look handle_getfile
call_handler announce = handle_announce
call_handler update = handle_update
call_handler look = handle_look
call_handler getfile = handle_getfile

unfoldable pub send_error_notice : ℕ → Bytes → Act (Unit {0})
unfolding write_text
send_error_notice p notice = write_text p (codes "error: " ++ (notice ++ codes "\n"))

-- a notice, and one more error in a row; whether the connection stays
unfoldable pub count_error : ℕ → Bytes → Act Bool
unfolding send_error_notice load_peer store_peer
count_error p notice = do
  send_error_notice p notice
  k ← load_peer p
  store_peer p (record k { seq_error_count = (k.seq_error_count + 1) % 2 ^ 32 })
  pure (not (ltb max_seq_error_count ((k.seq_error_count + 1) % 2 ^ 32)))

unfoldable pub reset_errors : ℕ → Act Bool
unfolding load_peer store_peer
reset_errors p = do k ← load_peer p; store_peer p (record k { seq_error_count = 0 }); pure true

unfoldable pub fault : {A : Type 0} → Act A
fault s = none

-- `what` is the text of the exceptions that `stoul` throws
module _ (what : Bytes) where
  -- the call of a handler in `try`, and what follows it; `what` of the library ends at a NUL
  unfoldable pub guarded : ℕ → Act (Unit {0}) → Act Bool
  unfolding count_error reset_errors before_first
  guarded p m s = elim (m s) [
    | none ↦ none
    | some (returns _, s') ↦ reset_errors p s'
    | some (throws text, s') ↦ count_error p (before_first 0 text) s'
    | some (throws_std, s') ↦ count_error p what s'
  ]

  -- the body of the loop of `readHandler` behind the call of `readUntil`
  unfoldable pub serve_line : ℕ → Bytes → Act Bool
  unfolding read_word lookup call_handler guarded count_error
  serve_line p line =
      let (keyword, rest) = read_word (stream line) [] in
      if no_text keyword then pure true else elim (lookup keyword s_handler_map) [
        | none ↦ count_error p (codes "unexpected keyword '" ++ (keyword ++ codes "'"))
        | some handler ↦ guarded p (call_handler handler p rest)
      ]

  -- the body of the loop of `readHandler`; `later` is the rest of the loop
  unfoldable pub read_line : Act Bool → ℕ → Peer → Act Bool
  unfolding serve_line store_peer have_line have_word read_until fault
  read_line later p k = elim (have_line k.read_buf) [
    | none ↦ fault
    | some false ↦ elim (have_word k.read_buf) [
      | none ↦ fault
      | some word ↦ pure (word || not (ltb max_keyword_size k.read_buf.size))
    ]
    | some true ↦ elim (read_until b'\n' k.read_buf) [
      | none ↦ fault
      | some (line, b) ↦ do
        store_peer p (record k { read_buf = b })
        stays ← serve_line p line
        (if stays then later else pure false)
    ]
  ]

  -- `readHandler`, in `rounds` rounds at most; what it returns says whether the connection stays
  unfoldable pub read_handler : ℕ → ℕ → Act Bool
  unfolding read_line load_peer fault
  read_handler zero p = do k ← load_peer p; (if k.read_buf.size == 0 then pure true else fault)
  read_handler (suc rounds) p =
      let later = read_handler rounds p in
      do k ← load_peer p; (if k.read_buf.size == 0 then pure true else read_line later p k)
