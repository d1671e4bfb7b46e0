-- ===== src/Tracker/Network/Read/Chunks.antt =====
-- The buffer of `socket_read_string`, and a request that arrives in chunks.
use raiezau.Base.{
  ℕ, zero, suc, ◌+◌, ◌*◌, ◌≤◌, ◌<◌, ◌≡◌, ◌≢◌, ◌↔◌, refl, sym, ap, ◌∙◌, false, Option, none, some,
  List, [], ◌∷◌, ◌++◌, ◌==◌, ltb, arith, if◌then◌else◌, length, get_elem?, take, All, length-append,
  append-nil, append_assoc, map,
}
use raiezau.Base.Bytes.{Bytes}
use raiezau.Cutil.Text.{c_string}
use raiezau.Tracker.Network.Read.{
  newline, string, Buffer, heuristic_size, last_byte, append_chunk, strip_newlines, read_loop,
  socket_read_string,
}

-- No byte is NUL.
abbrev pub NoNul : Bytes → Type 0
NoNul = All (λ c. c ≢ 0)

c_string_lem : (s : Bytes) → NoNul s → c_string s ≡ s
unfolding c_string
c_string_lem [] h = refl
c_string_lem (c ∷ s) (n, h) =
    let test : (c == 0) ≡ false = ground arith in rw test (ap (λ t. c ∷ t) (c_string_lem s h))

-- The string and its NUL fit the buffer, which is larger than a chunk.
pub record IsFilled (b : Buffer) : Type 0 where
  pub large : 1001 ≤ b.str_bufsize
  pub size : b.str_size ≡ length b.str
  pub room : length b.str < b.str_bufsize

module _ (buf : Bytes) (b : Buffer) (free : NoNul buf) (small : length buf ≤ 1000)
    (h : IsFilled b) where
  abbrev appended : Buffer
  appended = record {
    str = b.str ++ buf;
    str_size = b.str_size + length buf;
    str_bufsize =
        if ltb b.str_bufsize (b.str_size + length buf) then 2 * b.str_bufsize else b.str_bufsize;
  }

  -- A chunk without NULs overflows the buffer exactly if it fills it to the last byte: its
  -- terminating NUL is then written behind the end.
  pub append_chunk-overflow :
      (append_chunk buf b ≡ none) ↔ (length b.str + length buf ≡ b.str_bufsize)
  unfolding append_chunk
  append_chunk-overflow = rw (c_string_lem buf free) (
    ground (arith, h.large, h.size, h.room, length-append b.str buf),
    ground (arith, h.large, h.size, h.room, length-append b.str buf),
  )

  -- A chunk without NULs that does not fill the buffer to the last byte is appended to the string, in a
  -- buffer that has room for it.
  pub append_chunk-IsFilled :
      length b.str + length buf ≢ b.str_bufsize
      → (b' : Buffer) × (append_chunk buf b ≡ some b') × (b'.str ≡ b.str ++ buf) × IsFilled b'
  append_chunk-IsFilled ne = (
    appended,
    unfold append_chunk in
        rw (c_string_lem buf free)
          (ground (arith, h.large, h.size, h.room, length-append b.str buf)),
    refl,
    record {
      large = ground (arith, h.large);
      size = omega (arith, h.size, length-append b.str buf);
      room = ground (arith, h.large, h.size, h.room, length-append b.str buf);
    },
  )

unfoldable pub newlines : ℕ → Bytes
newlines zero = []
newlines (suc k) = newline ∷ newlines k

-- The text ends in no newline.
abbrev pub IsTrimmed : Bytes → Type 0
IsTrimmed t = last_byte t ≢ newline

get-last : (c : ℕ) (s : Bytes) → get_elem? (c ∷ s) (length s) ≡ some (last_byte (c ∷ s))
unfolding last_byte
get-last c [] = refl
get-last c (d ∷ s) = get-last d s

strip_done : (t : Bytes) → IsTrimmed t → strip_newlines (length t) t ≡ string (length t) t
unfolding strip_newlines
strip_done [] h = refl
strip_done (c ∷ s) h =
    let test : (last_byte (c ∷ s) == newline) ≡ false = ground arith in
    rw (get-last c s, strip_newlines) (rw test)

get-newline : (t : Bytes) (k : ℕ) → get_elem? (t ++ newlines (suc k)) (length t + k) ≡ some newline
unfolding newlines
get-newline [] zero = refl
get-newline [] (suc k) = let e : 0 + suc k ≡ suc (0 + k) = omega arith in rw e (get-newline [] k)
get-newline (c ∷ t) k =
    let e : suc (length t) + k ≡ suc (length t + k) = omega arith in rw e (get-newline t k)

take-newlines : (t : Bytes) (k : ℕ) → take (length t + k) (t ++ newlines (suc k)) ≡ t ++ newlines k
unfolding newlines
take-newlines [] zero = refl
take-newlines [] (suc k) =
    let e : 0 + suc k ≡ suc (0 + k) = omega arith in
    rw e (ap (λ s. newline ∷ s) (take-newlines [] k))
take-newlines (c ∷ t) k =
    let e : suc (length t) + k ≡ suc (length t + k) = omega arith in
    rw e (ap (λ s. c ∷ s) (take-newlines t k))

strip_newline :
    (t : Bytes) (k : ℕ)
    → strip_newlines (suc (length t + k)) (t ++ newlines (suc k))
      ≡ strip_newlines (length t + k) (t ++ newlines k)
strip_newline t k =
    unfold strip_newlines in rw (get-newline t k, strip_newlines, take-newlines t k) refl

strip_newlines_lem :
    (t : Bytes) (k : ℕ)
    → IsTrimmed t
    → strip_newlines (length t + k) (t ++ newlines k) ≡ string (length t) t
strip_newlines_lem t zero h =
    let e : length t + 0 ≡ length t = omega arith in
    unfold newlines in rw (e, append-nil t) (strip_done t h)
strip_newlines_lem t (suc k) h =
    let e : length t + suc k ≡ suc (length t + k) = omega arith in
    rw (e, strip_newline t k) (strip_newlines_lem t k h)

-- Chunks as `read` returns them for a request without NULs: only the last one ends in a newline.
unfoldable pub Chunks : List Bytes → Type 0
Chunks [] = ⊥
Chunks (c ∷ []) = (c ≢ []) × NoNul c × (last_byte c ≡ newline)
Chunks (c ∷ d ∷ cs) = (c ≢ []) × NoNul c × (last_byte c ≢ newline) × Chunks (d ∷ cs)

unfoldable pub concat : List Bytes → Bytes
concat [] = []
concat (c ∷ cs) = c ++ concat cs

last_byte-ne-zero : (c : ℕ) (s : Bytes) → NoNul (c ∷ s) → last_byte (c ∷ s) ≢ 0
unfolding last_byte
last_byte-ne-zero c [] (n, h) = n
last_byte-ne-zero c (d ∷ s) (n, h) = last_byte-ne-zero d s h

abbrev buffer : Bytes → Buffer
buffer s = record { str = s; str_size = length s; str_bufsize = heuristic_size }

append_small :
    (s c : Bytes)
    → NoNul c
    → length s + length c < heuristic_size
    → append_chunk c (buffer s) ≡ some (buffer (s ++ c))
unfolding append_chunk
append_small s c free lt = let n = length-append s c in rw (c_string_lem c free) (ground (arith, n))

read_loop_last :
    (a : ℕ) (c : Bytes) (rest : List (Option Bytes)) (s : Bytes)
    → append_chunk (a ∷ c) (buffer s) ≡ some (buffer (s ++ a ∷ c))
    → last_byte (a ∷ c) ≡ newline
    → read_loop (some (a ∷ c) ∷ rest) (buffer s) ≡ strip_newlines (length (s ++ a ∷ c)) (s ++ a ∷ c)
read_loop_last a c rest s e end = unfold read_loop in rw (e, read_loop) (rw end refl)

read_loop_inner :
    (a : ℕ) (c : Bytes) (rest : List (Option Bytes)) (s : Bytes)
    → append_chunk (a ∷ c) (buffer s) ≡ some (buffer (s ++ a ∷ c))
    → last_byte (a ∷ c) ≢ 0
    → last_byte (a ∷ c) ≢ newline
    → read_loop (some (a ∷ c) ∷ rest) (buffer s) ≡ read_loop rest (buffer (s ++ a ∷ c))
read_loop_inner a c rest s e nz nn =
    let p : (last_byte (a ∷ c) == 0) ≡ false = ground arith in
    let q : (last_byte (a ∷ c) == newline) ≡ false = ground arith in
    unfold read_loop in rw (e, read_loop) (rw (p, q) refl)

length-newlines : (k : ℕ) → length (newlines k) ≡ k
unfolding newlines
length-newlines zero = refl
length-newlines (suc k) = ap suc (length-newlines k)

read_loop-Chunks :
    (cs : List Bytes) (rest : List (Option Bytes)) (s : Bytes)
    → Chunks cs
    → length (s ++ concat cs) < heuristic_size
    → read_loop (map some cs ++ rest) (buffer s)
      ≡ strip_newlines (length (s ++ concat cs)) (s ++ concat cs)
unfolding Chunks concat
read_loop-Chunks [] rest s h lt = elim h [ ]
read_loop-Chunks ([] ∷ []) rest s (ne, _, _) lt = absurd (ne refl)
read_loop-Chunks ([] ∷ d ∷ cs) rest s (ne, _, _, _) lt = absurd (ne refl)
read_loop-Chunks ((a ∷ c) ∷ []) rest s (ne, free, end) lt =
    let n = length-append s ((a ∷ c) ++ []) in
    let whole = append-nil (a ∷ c) in
    let fits : length s + length (a ∷ c) < heuristic_size = omega (arith, n, ap length whole) in
    read_loop_last a c rest s (append_small s (a ∷ c) free fits) end
    ∙ ap (λ t. strip_newlines (length (s ++ t)) (s ++ t)) (sym whole)
read_loop-Chunks ((a ∷ c) ∷ d ∷ cs) rest s (ne, free, inner, more) lt =
    let tail = concat (d ∷ cs) in
    let n = length-append s ((a ∷ c) ++ tail) in
    let m = length-append (a ∷ c) tail in
    let fits : length s + length (a ∷ c) < heuristic_size = omega (arith, n, m) in
    let regroup = append_assoc s (a ∷ c) tail in
    let next : length ((s ++ (a ∷ c)) ++ tail) < heuristic_size =
      omega (arith, ap length regroup) in
    read_loop_inner a c (map some (d ∷ cs) ++ rest) s (append_small s (a ∷ c) free fits)
      (last_byte-ne-zero a c free) inner
    ∙ read_loop-Chunks (d ∷ cs) rest (s ++ (a ∷ c)) more next
    ∙ ap (λ t. strip_newlines (length t) t) regroup

-- A request without NULs that fits the first buffer, with any number of newlines at its end but at
-- least one, and that `read` gives in chunks of which only the last one ends in a newline, is read
-- whole and loses those newlines. What the client sends next is not read.
pub socket_read_string-Chunks :
    (cs : List Bytes) (rest : List (Option Bytes)) (t : Bytes) (k : ℕ)
    → Chunks cs
    → concat cs ≡ t ++ newlines (suc k)
    → length (concat cs) < heuristic_size
    → IsTrimmed t
    → socket_read_string (map some cs ++ rest) ≡ string (length t) t
unfolding socket_read_string
socket_read_string-Chunks cs rest t k h e lt trimmed =
    read_loop-Chunks cs rest [] h lt
    ∙ ap (λ s. strip_newlines (length s) s) e
    ∙ ap (λ n. strip_newlines n (t ++ newlines (suc k)))
        (length-append t (newlines (suc k)) ∙ ap (λ n. length t + n) (length-newlines (suc k)))
    ∙ strip_newlines_lem t (suc k) trimmed
