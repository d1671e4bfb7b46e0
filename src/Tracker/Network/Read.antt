-- ===== src/Tracker/Network/Read.antt =====
-- `socket_read_string` of tracker/network.c: one request is read in chunks into a growing buffer.
pub mod Chunks
use raiezau.Base.{
  ℕ, zero, suc, ◌+◌, ◌*◌, ◌≤◌, ◌<◌, ◌≡◌, ◌≢◌, ◌↔◌, refl, sym, ap, ◌∙◌, true, false, ◌||◌, Option,
  none, some, List, [], ◌∷◌, ◌++◌, ◌==◌, ltb, arith, if◌then◌else◌, length, get_elem?, take, All,
  length-append, append-nil, append_assoc, map,
}
use raiezau.Base.Bytes.{Bytes}
use raiezau.Cutil.Text.{c_string}

abbrev pub newline : ℕ
newline = b'\n'

-- The outcome: -1; the size and the string; a write behind the end of the buffer; or, with no more
-- input to look at, the function is still waiting.
pub data Outcome : Type 0 where
  failed : Outcome
  string : ℕ → Bytes → Outcome
  overflow : Outcome
  waiting : Outcome

-- the variables of the loop; the string in `str` ends at its first NUL
pub record Buffer : Type 0 where
  pub str : Bytes
  pub str_size : ℕ
  pub str_bufsize : ℕ

abbrev pub heuristic_size : ℕ
heuristic_size = 3072

-- `buf[r - 1]`
unfoldable pub last_byte : Bytes → ℕ
last_byte [] = 0
last_byte (c ∷ []) = c
last_byte (c ∷ d ∷ s) = last_byte (d ∷ s)

-- The body of the loop for a chunk of `length buf` bytes. `none`: `strcat` writes the string and
-- its NUL, and they do not fit.
unfoldable pub append_chunk : Bytes → Buffer → Option Buffer
unfolding c_string
append_chunk buf b =
    let r = length buf in
    let bufsize = if ltb b.str_bufsize (b.str_size + r) then 2 * b.str_bufsize else b.str_bufsize in
    let str = b.str ++ c_string buf in
    if ltb bufsize (length str + 1)
    then none
    else some (record { str = str; str_size = b.str_size + r; str_bufsize = bufsize })

-- the newlines at the end; the second argument is `str_size`
unfoldable pub strip_newlines : ℕ → Bytes → Outcome
strip_newlines zero str = string zero str
strip_newlines (suc n) str = elim (get_elem? str n) [
  | none ↦ string (suc n) str
  | some c ↦ elim (c == newline) [
    | true ↦ strip_newlines n (take n str)
    | false ↦ string (suc n) str
  ]
]

-- What `read` returns, call after call: `none` is an error or the end of the input.
unfoldable pub read_loop : List (Option Bytes) → Buffer → Outcome
unfolding append_chunk last_byte strip_newlines
read_loop [] b = waiting
read_loop (none ∷ reads) b = failed
read_loop (some [] ∷ reads) b = failed
read_loop (some (c ∷ buf) ∷ reads) b = elim (append_chunk (c ∷ buf) b) [
  | none ↦ overflow
  | some b' ↦
      let more = read_loop reads b' in
      let end = last_byte (c ∷ buf) in
      if end == 0 || end == newline then strip_newlines b'.str_size b'.str else more
]

unfoldable pub socket_read_string : List (Option Bytes) → Outcome
unfolding read_loop
socket_read_string reads =
    read_loop reads (record { str = []; str_size = 0; str_bufsize = heuristic_size })
