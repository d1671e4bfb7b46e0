-- ===== src/Tests/Peers.antt =====
-- The peers of tracker_cpp/ at concrete inputs.
use raiezau.Base.{
  ℕ, zero, suc, ◌<◌, ◌≡◌, refl, Bool, true, false, not, none, some, List, [], ◌∷◌, ◌++◌, ◌==◌,
  arith, get_elem?,
}
use raiezau.Base.Bytes.{Bytes, codes, str_eq}
use raiezau.Cutil.HashTable.Keys.{lookup}
use raiezau.Tracker.File.Peers.{member}
use raiezau.TrackerCpp.CircularBuffer.{CircularBuffer, have_line, read_until}
use raiezau.TrackerCpp.CircularBuffer.Queue.{place}
use raiezau.TrackerCpp.CircularBuffer.Search.{has}
use raiezau.TrackerCpp.CircularBuffer.Until.{Straight}
use raiezau.TrackerCpp.Criterion.{Criterion, criterions, eqi, quoted}
use raiezau.TrackerCpp.Criterion.Selecting.{chosen, parse_criterion_lem, equality_swapped}
use raiezau.TrackerCpp.FileMgr.{File, get}
use raiezau.TrackerCpp.Peer.{Peer, Server, returns}
use raiezau.TrackerCpp.Peer.Deleted.{delete_peer, handle_getfile_deleted}
use raiezau.TrackerCpp.Peer.Lines.{text_of, serve_lines, read_handler_lem}
use raiezau.TrackerCpp.Peer.Reading.{read_handler}
use raiezau.TrackerCpp.Peer.Requests.{handle_getfile, keep_files, parse_criterion}
use raiezau.TrackerCpp.Peer.Staying.{Keeps, read_handler-Keeps}
use raiezau.TrackerCpp.Text.{stream, stoul, read_word}

-- a line and the start of another one
abbrev sent : Bytes
sent = codes "hi\na"

abbrev buffer : CircularBuffer
buffer = record { capacity = 6; size = 4; r = 0; w = 4; buf = codes "hi\na--" }

abbrev peer : ℕ → CircularBuffer → Peer
peer errors b = record {
  addr = record { a = 10; b = 0; c = 0; d = 7; port = 4000 };
  listening_port = 6000;
  announced = true;
  leech = [];
  seed = [];
  seq_error_count = errors;
  read_buf = b;
}

-- a file of the two peers
abbrev shared : File
shared = record {
  file_name = codes "f";
  file_size = 10;
  piece_size = 5;
  hash = codes "h";
  peers = 0 ∷ 1 ∷ [];
}

abbrev server : Peer → List (ℕ × Bytes) → Server
server k written = record {
  files = record { files = shared ∷ []; map = (codes "h", 0) ∷ []; file_set = 0 ∷ [] };
  peers = some k ∷ some (peer 0 buffer) ∷ [];
  written = written;
}

abbrev before : Server
before = server (peer 0 buffer) []

abbrev after : Server
after =
    server (peer 1 (record buffer { r = 3; size = 1 }))
      ((0, codes "error: unexpected keyword 'hi'\n") ∷ [])

stored : (i : ℕ) → i < 4 → get_elem? buffer.buf (place buffer i) ≡ get_elem? sent i
stored zero lt = refl
stored (suc zero) lt = refl
stored (suc (suc zero)) lt = refl
stored (suc (suc (suc zero))) lt = refl
stored (suc (suc (suc (suc i)))) lt = absurd (omega arith)

buffer-Straight : Straight buffer sent
buffer-Straight = record {
  holds = record {
    array = refl;
    small = omega arith;
    front = omega arith;
    count = refl;
    fits = omega arith;
    back = refl;
    stored = stored;
  };
  whole = omega arith;
}

read : read_handler (codes "stoul") 2 0 before ≡ some (returns true, after)
unfolding read_handler have_line read_until lookup str_eq
read = refl

read_handler-Keeps_example :
    (stays : Bool) × (returns true ≡ returns stays) × Keeps stays before after
read_handler-Keeps_example = read_handler-Keeps (codes "stoul") 2 0 before (returns true) after read

read_handler_lem_example :
    read_handler (codes "stoul") 2 0 before
    ≡ serve_lines (codes "stoul") 0 buffer (codes "hi" ∷ []) (codes "a") before
unfolding text_of has
read_handler_lem_example =
    read_handler_lem (codes "stoul") 0 2 (codes "hi" ∷ []) (codes "a") before (peer 0 buffer) refl
      buffer-Straight (refl, tt) refl (omega arith)

handle_getfile_deleted_example :
    handle_getfile 0 (stream (codes " h")) (delete_peer 1 before) ≡ none
unfolding read_word get lookup str_eq member
handle_getfile_deleted_example =
    handle_getfile_deleted 0 1 0 (stream (codes " h")) before (peer 0 buffer) (peer 0 buffer) shared
      refl refl refl refl refl refl refl

-- `piecesize!="`
abbrev size_differs : Criterion
size_differs = record {
  delim = quoted (codes "!=");
  keyword = codes "piecesize";
  predicate = eqi (λ f. f.piece_size) false;
}

parse_criterion_lem_example :
    parse_criterion criterions
      (codes "piecesize!=" ++ (b'"' ∷ codes "4" ++ (b'"' ∷ codes "]")))
      (0 ∷ [])
    ≡ keep_files (eqi (λ f. f.piece_size) false) (codes "4") (0 ∷ [])
parse_criterion_lem_example =
    parse_criterion_lem 7 size_differs (codes "4") (codes "]") (0 ∷ []) (unfold criterions in refl)
      (unfold has in refl)

equality_swapped_example :
    (parse_criterion criterions
        (codes "filesize=" ++ (b'"' ∷ codes "10" ++ b'"' ∷ []))
        (0 ∷ [])
        before
      ≡ some (returns (chosen (λ x. not (10 == x.file_size)) before (0 ∷ [])), before))
    × (parse_criterion criterions
          (codes "filesize!=" ++ (b'"' ∷ codes "10" ++ b'"' ∷ []))
          (0 ∷ [])
          before
        ≡ some (returns (chosen (λ x. 10 == x.file_size) before (0 ∷ [])), before))
equality_swapped_example =
    equality_swapped (codes "10") 10 (0 ∷ []) before (unfold stoul in refl) (unfold has in refl)
      (omega arith, tt)
