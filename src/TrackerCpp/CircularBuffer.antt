-- ===== src/TrackerCpp/CircularBuffer.antt =====
-- tracker_cpp/common/containers/CircularBuffer.cpp: a queue of bytes in an array that is used round.
-- The result `none` is a call of `abort` or an access outside of the array. `size_t` is 64 bits wide.
pub mod Splice
pub mod Queue
pub mod Front
pub mod Flush
pub mod Search
pub mod Until
pub mod Calls
use raiezau.Base.{
  ℕ, zero, suc, ◌+◌, ◌-◌, ◌%◌, ◌^◌, Bool, true, false, not, ◌||◌, Option, none, some, List, [], ◌∷◌,
  ◌++◌, ◌==◌, leb, ltb, if◌then◌else◌, length, get_elem?, take, drop,
}
use raiezau.Base.Bytes.{Bytes}
use raiezau.Base.Int.{ℤ, pos, negsuc}

pub record CircularBuffer : Type 0 where
  pub capacity : ℕ
  pub size : ℕ
  pub r : ℕ
  pub w : ℕ
  pub buf : List ℕ

-- `a + b` and `a - b` of type `size_t`
abbrev pub add_size : ℕ → ℕ → ℕ
add_size a b = (a + b) % 2 ^ 64

abbrev pub sub_size : ℕ → ℕ → ℕ
sub_size a b = (a + 2 ^ 64 - b) % 2 ^ 64

-- `memory` is what `new uint8_t[capacity]` gives
unfoldable pub create : (capacity : ℕ) (memory : List ℕ) → CircularBuffer
create capacity memory = record { capacity = capacity; size = 0; r = 0; w = 0; buf = memory }

-- the array after a write of `xs` at index `off`
unfoldable pub splice : List ℕ → ℕ → List ℕ → List ℕ
splice buf off xs = take off buf ++ (xs ++ drop (off + length xs) buf)

-- `memcpy(_buf + off, xs, length xs)`
unfoldable pub copy_in : List ℕ → ℕ → List ℕ → Option (List ℕ)
unfolding splice
copy_in buf off xs = if leb (off + length xs) (length buf) then some (splice buf off xs) else none

-- the bytes that `memcpy(data, _buf + off, n)` copies
unfoldable pub copy_out : List ℕ → ℕ → ℕ → Option (List ℕ)
copy_out buf off n = if leb (off + n) (length buf) then some (take n (drop off buf)) else none

unfoldable pub remaining_space : CircularBuffer → ℕ
remaining_space b = sub_size b.capacity b.size

-- both branches of `write`, once there is room
unfoldable pub put : Bytes → CircularBuffer → Option CircularBuffer
unfolding copy_in
put bytes b =
    let n = length bytes in
    if leb (add_size b.w n) b.capacity
    then elim (copy_in b.buf b.w bytes) [
      | none ↦ none
      | some buf ↦ some (record b { buf = buf; w = add_size b.w n; size = add_size b.size n })
    ]
    else let cut = sub_size b.capacity b.w in
      elim (copy_in b.buf b.w (take cut bytes)) [
        | none ↦ none
        | some buf ↦ elim (copy_in buf 0 (drop cut bytes)) [
          | none ↦ none
          | some buf ↦ some (record b { buf = buf; w = sub_size n cut; size = add_size b.size n })
        ]
      ]

unfoldable pub write : Bytes → CircularBuffer → Option CircularBuffer
unfolding remaining_space put
write bytes b = if leb (length bytes) (remaining_space b) then put bytes b else none

-- what both branches of `read` and `peek` copy; `whole` says that the bytes lie in one piece
unfoldable pub get : Bool → ℕ → CircularBuffer → Option Bytes
unfolding copy_out
get whole n b =
    if whole
    then copy_out b.buf b.r n
    else let cut = sub_size b.capacity b.r in
      elim (copy_out b.buf b.r cut) [
        | none ↦ none
        | some front ↦ elim (copy_out b.buf 0 (sub_size n cut)) [
          | none ↦ none
          | some back ↦ some (front ++ back)
        ]
      ]

unfoldable pub read : ℕ → CircularBuffer → Option (Bytes × CircularBuffer)
unfolding get
read n b =
    let whole = leb (add_size b.r n) b.capacity in
    if leb n b.size
    then elim (get whole n b) [
      | none ↦ none
      | some bytes ↦
          let r = if whole then add_size b.r n else sub_size n (sub_size b.capacity b.r) in
          some (bytes, record b { r = r; size = sub_size b.size n })
    ]
    else none

-- a peek at more bytes than there are is a peek at all of them
unfoldable pub peek : ℕ → CircularBuffer → Option Bytes
unfolding get
peek n b = let n = if leb n b.size then n else b.size in get (ltb (add_size b.r n) b.capacity) n b

-- `new_cap` is `_capacity * factor` for a factor above 1, and `memory` the new array
unfoldable pub resize : (new_cap : ℕ) (memory : List ℕ) → CircularBuffer → Option CircularBuffer
unfolding read copy_in
resize new_cap memory b =
    let n = if ltb b.size new_cap then b.size else new_cap in
    elim (read n b) [
      | none ↦ none
      | some (bytes, _) ↦ elim (copy_in memory 0 bytes) [
        | none ↦ none
        | some buf ↦
            some (record { capacity = new_cap; size = b.size; r = 0; w = b.size; buf = buf })
      ]
    ]

unfoldable pub reset : CircularBuffer → CircularBuffer
reset b = record b { r = 0; w = 0; size = 0 }

-- whether one of the bytes from `i` on is `c`, in `rounds` rounds; `none` is outside of the array
unfoldable pub contains_loop : List ℕ → ℕ → ℕ → ℕ → Option Bool
contains_loop buf c zero i = some false
contains_loop buf c (suc rounds) i = elim (get_elem? buf i) [
  | none ↦ none
  | some x ↦ elim (x == c) [ true ↦ some true | false ↦ contains_loop buf c rounds (suc i) ]
]

unfoldable pub contains : ℕ → CircularBuffer → Option Bool
unfolding contains_loop
contains c b =
    if ltb b.r b.w
    then contains_loop b.buf c (b.w - b.r) b.r
    else if ltb b.w b.r
    then elim (contains_loop b.buf c (b.capacity - b.r) b.r) [
      | none ↦ none
      | some true ↦ some true
      | some false ↦ contains_loop b.buf c b.w 0
    ]
    else some false

unfoldable pub have_word : CircularBuffer → Option Bool
unfolding contains
have_word b = contains b' ' b

unfoldable pub have_line : CircularBuffer → Option Bool
unfolding contains
have_line b = contains b'\n' b

-- a loop of `readUntil` from index `r` on, in `rounds` rounds: the bytes read, `r` and `size`
unfoldable pub until_loop : List ℕ → ℕ → ℕ → ℕ → ℕ → Bytes → Option (Bytes × ℕ × ℕ)
until_loop buf c zero r size s = some (s, r, size)
until_loop buf c (suc rounds) r size s = elim (get_elem? buf r) [
  | none ↦ none
  | some x ↦ elim (x == c) [
    | true ↦ some (s, r, size)
    | false ↦ until_loop buf c rounds (suc r) (sub_size size 1) (s ++ x ∷ [])
  ]
]

-- the second loop and what follows it; `_r` becomes 0 before it if the bytes lay in two pieces
unfoldable pub until_end : ℕ → CircularBuffer → ℕ → ℕ → Bytes → Option (Bytes × CircularBuffer)
unfolding until_loop
until_end c b r size s = elim (until_loop b.buf c (b.w - r) r size s) [
  | none ↦ none
  | some (s, r, size) ↦ some (
    s,
    if ltb 0 size
        then record b { r = add_size r 1; size = sub_size size 1 }
        else record b { r = r; size = size },
  )
]

unfoldable pub read_until : ℕ → CircularBuffer → Option (Bytes × CircularBuffer)
unfolding until_loop until_end
read_until c b =
    if ltb b.w b.r
    then elim (until_loop b.buf c (b.capacity - b.r) b.r b.size []) [
      | none ↦ none
      | some (s, r, size) ↦ until_end c b 0 size s
    ]
    else until_end c b b.r b.size []

-- `write_to_fd` with the results of its first and second call of `write(2)`: the bytes that went
-- out, what it returns, and the buffer
unfoldable pub write_to_fd : (ret₁ ret₂ : ℤ) → CircularBuffer → Option (Bytes × ℤ × CircularBuffer)
unfolding copy_out
write_to_fd ret₁ ret₂ b =
    let whole = leb (add_size b.r b.size) b.capacity in
    let cut = if whole then b.size else sub_size b.capacity b.r in
    let empty = record b { r = 0; w = 0; size = 0 } in
    elim (copy_out b.buf b.r cut) [
      | none ↦ none
      | some front ↦ elim ret₁ [
        | negsuc n ↦ some ([], negsuc n, b)
        | pos n ↦
            if n == 0
            then some ([], pos 0, b)
            else if ltb n cut
            then some
                (take n front, pos n, record b { r = add_size b.r n; size = sub_size b.size n })
            else if whole
            then some (front, pos b.size, empty)
            else elim (copy_out b.buf 0 (sub_size b.size cut)) [
              | none ↦ none
              | some back ↦ elim ret₂ [
                | negsuc k ↦ some (front, negsuc k, b)
                | pos k ↦
                    if k == 0
                    then some (front, pos 0, b)
                    else if ltb k (sub_size b.size cut)
                    then some
                        (front ++ take k back, pos k, record b { r = k; size = sub_size b.size k })
                    else some (front ++ back, pos b.size, empty)
              ]
            ]
      ]
    ]
