-- ===== src/Tests/Buffers.antt =====
-- tracker_cpp/ at concrete inputs.
use raiezau.Base.{
  ℕ, zero, suc, ◌<◌, ◌≡◌, refl, some, List, [], ◌∷◌, arith, get_elem?, drop, take, if◌then◌else◌,
}
use raiezau.Base.Bytes.{Bytes, codes, str_eq}
use raiezau.Base.Int.{pos}
use raiezau.TrackerCpp.CircularBuffer.{CircularBuffer, resize, write_to_fd, read_until}
use raiezau.TrackerCpp.CircularBuffer.Queue.{Holds, place}
use raiezau.TrackerCpp.CircularBuffer.Front.{resize-Holds}
use raiezau.TrackerCpp.CircularBuffer.Flush.{straight, write_to_fd_short, write_to_fd_partial}
use raiezau.TrackerCpp.FileMgr.{File, FileMgr, get, get_file}
use raiezau.TrackerCpp.FileMgr.Lookup.{Fits, kept, get_file_lem}
use raiezau.TrackerCpp.CircularBuffer.Calls.{
  Call, writing, reading, peeking, run, run_queue, run-Holds,
}

abbrev abc : Bytes
abc = codes "abc"

-- in one piece, in two pieces, and in two pieces that fill the array
abbrev whole : CircularBuffer
whole = record { capacity = 4; size = 3; r = 0; w = 3; buf = codes "abc-" }

abbrev pieces : CircularBuffer
pieces = record { capacity = 4; size = 3; r = 3; w = 2; buf = codes "bc-a" }

abbrev filled : CircularBuffer
filled = record { capacity = 3; size = 3; r = 1; w = 1; buf = codes "cab" }

whole_stored : (i : ℕ) → i < 3 → get_elem? whole.buf (place whole i) ≡ get_elem? abc i
whole_stored zero lt = refl
whole_stored (suc zero) lt = refl
whole_stored (suc (suc zero)) lt = refl
whole_stored (suc (suc (suc i))) lt = absurd (omega arith)

pieces_stored : (i : ℕ) → i < 3 → get_elem? pieces.buf (place pieces i) ≡ get_elem? abc i
pieces_stored zero lt = refl
pieces_stored (suc zero) lt = refl
pieces_stored (suc (suc zero)) lt = refl
pieces_stored (suc (suc (suc i))) lt = absurd (omega arith)

filled_stored : (i : ℕ) → i < 3 → get_elem? filled.buf (place filled i) ≡ get_elem? abc i
filled_stored zero lt = refl
filled_stored (suc zero) lt = refl
filled_stored (suc (suc zero)) lt = refl
filled_stored (suc (suc (suc i))) lt = absurd (omega arith)

whole-Holds : Holds whole abc
whole-Holds = record {
  array = refl;
  small = omega arith;
  front = omega arith;
  count = refl;
  fits = omega arith;
  back = refl;
  stored = whole_stored;
}

pieces-Holds : Holds pieces abc
pieces-Holds = record {
  array = refl;
  small = omega arith;
  front = omega arith;
  count = refl;
  fits = omega arith;
  back = refl;
  stored = pieces_stored;
}

filled-Holds : Holds filled abc
filled-Holds = record {
  array = refl;
  small = omega arith;
  front = omega arith;
  count = refl;
  fits = omega arith;
  back = refl;
  stored = filled_stored;
}

-- a run over the edge of the array, and a word that is read up to its end
reads_b : read_until b'b' pieces ≡ some (codes "a", record pieces { r = 1; size = 1 })
unfolding read_until
reads_b = refl

abbrev session : List Call
session = reading 1 ∷ writing (codes "de") ∷ peeking 9 ∷ reading 4 ∷ []

run-Holds_example : run session pieces ≡ run_queue 4 session abc
run-Holds_example = run-Holds session pieces-Holds

resize-Holds_example :
    (b' : CircularBuffer) × (resize 6 (codes "......") pieces ≡ some b')
    × Holds b' abc
    × (b'.capacity ≡ 6)
resize-Holds_example = resize-Holds pieces-Holds 6 (codes "......") refl (omega arith) (omega arith)

write_to_fd_short_example :
    (b' : CircularBuffer) × (write_to_fd (pos 2) (pos 0) whole ≡ some (take 2 abc, pos 2, b'))
    × Holds b' (drop 2 abc)
write_to_fd_short_example =
    write_to_fd_short whole-Holds 2 (pos 0) (λ e. omega arith) (unfold straight in omega arith)

write_to_fd_partial_example :
    (b' : CircularBuffer) × (write_to_fd (pos 1) (pos 1) pieces ≡ some (take 2 abc, pos 1, b'))
    × ¬ Holds b' (drop 2 abc)
write_to_fd_partial_example =
    write_to_fd_partial pieces-Holds 1 1 (omega arith) refl (λ e. omega arith) (λ e. omega arith)
      (omega arith)

-- a file, and one of the same hash that is asked for with another size
abbrev known : FileMgr
known = record {
  files =
      record { file_name = codes "f"; file_size = 10; piece_size = 5; hash = codes "h"; peers = [] }
      ∷ [];
  map = (codes "h", 0) ∷ [];
  file_set = 0 ∷ [];
}

known_file :
    (q : ℕ) → get known (codes "h") ≡ some q → (y : File) × (get_elem? known.files q ≡ some y)
unfolding get str_eq
known_file zero e = (_, refl)
known_file (suc q) e = absurd (grind arith)

get_file_lem_example :
    (p : ℕ) × (m' : FileMgr) × (x : File) × (get_file (codes "f") 11 5 (codes "h") known
      ≡ some (p, m'))
    × (get_elem? m'.files p ≡ some x)
    × Fits x 11 5 (codes "h")
    × ((j : Bytes)
        → get m' j ≡ (if str_eq (codes "h") j then kept (get known j) p else get known j))
get_file_lem_example = get_file_lem (codes "f") 11 5 (codes "h") known known_file
