-- ===== src/TrackerCpp/CircularBuffer/Flush.antt =====
-- `writeToFd` of CircularBuffer.cpp sends the queue to a file descriptor.
use raiezau.Base.{
  ℕ, zero, suc, ◌+◌, ◌-◌, ◌≤◌, ◌<◌, ◌≡◌, ◌≢◌, refl, sym, ap, ◌∙◌, true, false, ◌==◌, some, List, [],
  ◌∷◌, ◌++◌, arith, length, take, drop, leb, ltb, if◌then◌else◌,
}
use raiezau.Base.Bytes.{Bytes}
use raiezau.Base.Int.{ℤ, pos}
use raiezau.Base.Index.{length-drop}
use raiezau.TrackerCpp.CircularBuffer.{CircularBuffer, add_size, sub_size, copy_out, write_to_fd}
use raiezau.TrackerCpp.CircularBuffer.Queue.{Holds}
use raiezau.TrackerCpp.CircularBuffer.Front.{one_piece, two_pieces, rest-Holds}
use raiezau.TrackerCpp.CircularBuffer.Splice.{copy_out_fits}

take-take : (n m : ℕ) (xs : List ℕ) → n ≤ m → take n (take m xs) ≡ take n xs
take-take zero m xs h = refl
take-take (suc n) zero xs h = absurd (omega arith)
take-take (suc n) (suc m) [] h = refl
take-take (suc n) (suc m) (x ∷ xs) h = ap (λ t. x ∷ t) (take-take n m xs (omega arith))

-- The bytes that lie in front of the end of the array.
unfoldable pub straight : CircularBuffer → ℕ
straight b = if leb (b.r + b.size) b.capacity then b.size else b.capacity - b.r

module _ {b : CircularBuffer} {q : Bytes} (h : Holds b q) where
  straight_bounds : (b.r + straight b ≤ b.capacity) × (straight b ≤ b.size)
  unfolding straight
  straight_bounds = ground (arith, h.front)

  abbrev piece : List ℕ
  piece = take (straight b) (drop b.r b.buf)

  copied : copy_out b.buf b.r (straight b) ≡ some piece
  copied = copy_out_fits b.buf b.r (straight b) (omega (arith, straight_bounds, h.array))

  straight_cut :
      (if leb (add_size b.r b.size) b.capacity then b.size else sub_size b.capacity b.r)
      ≡ straight b
  unfolding straight
  straight_cut = let fits = h.fits in let small = h.small in let edge = h.front in ground arith

  sent : (n : ℕ) → n ≤ straight b → take n piece ≡ take n q
  sent n le =
      let (inside, below) = straight_bounds in
      take-take n (straight b) (drop b.r b.buf) le
      ∙ one_piece h n (omega (arith, h.count)) (omega arith)

  module _ (n : ℕ) (ret₂ : ℤ) (some_sent : n ≢ 0) (lt : n < straight b) where
    short_result :
        write_to_fd (pos n) ret₂ b
        ≡ some (take n piece, pos n, record b { r = add_size b.r n; size = sub_size b.size n })
    short_result =
        let zero_test : (n == 0) ≡ false = ground arith in
        let test : ltb n (straight b) ≡ true = ground arith in
        unfold write_to_fd in
        rw (write_to_fd, straight_cut, copied, zero_test) (rw (straight_cut, test) refl)

    short_left : Holds (record b { r = add_size b.r n; size = sub_size b.size n }) (drop n q)
    short_left =
        let (inside, below) = straight_bounds in
        let small = h.small in
        let fits = h.fits in
        let front : add_size b.r n
            ≡ (if leb (b.r + n) b.capacity then b.r + n else b.r + n - b.capacity) =
          ground arith in
        let size : sub_size b.size n ≡ b.size - n = omega arith in
        rw (front, size) (rest-Holds h n (omega (arith, h.count)))

-- On a buffer that holds a queue: if the first `write` takes some of the bytes in front of the end of
-- the array but not all of them, then these bytes went out, their number is returned, and the others are still in the queue.
pub write_to_fd_short :
    {b : CircularBuffer} {q : Bytes}
    → Holds b q
    → (n : ℕ) (ret₂ : ℤ) → n ≢ 0
    → n < straight b
    → (b' : CircularBuffer) × (write_to_fd (pos n) ret₂ b ≡ some (take n q, pos n, b'))
      × Holds b' (drop n q)
write_to_fd_short {b} h n ret₂ ne lt = (
  record b { r = add_size b.r n; size = sub_size b.size n },
  short_result h n ret₂ ne lt
      ∙ ap (λ t. some (t, pos n, record b { r = add_size b.r n; size = sub_size b.size n }))
          (sent h n (omega arith)),
  short_left h n ret₂ ne lt,
)

module _ {b : CircularBuffer} {q : Bytes} (h : Holds b q) (n k : ℕ)
    (pieces : b.capacity < b.r + b.size) (whole : n ≡ b.capacity - b.r) (some_first : n ≢ 0)
    (some_second : k ≢ 0) (lt : k < length q - n) where
  abbrev kept : CircularBuffer
  kept = record b { r = k; size = sub_size b.size k }

  cut : straight b ≡ n
  cut = unfold straight in ground arith

  second_copied : copy_out b.buf 0 (length q - n) ≡ some (take (length q - n) (drop 0 b.buf))
  second_copied =
      copy_out_fits b.buf 0 (length q - n) (omega (arith, h.array, h.count, h.fits, h.front))

  all_sent : take n (drop b.r b.buf) ++ take k (drop 0 b.buf) ≡ take (n + k) q
  all_sent =
      let rounds : n + k - (b.capacity - b.r) ≡ k = omega arith in
      let front : b.capacity - b.r ≡ n = sym whole in
      rw (← front) (
        ap (λ m. take (b.capacity - b.r) (drop b.r b.buf) ++ take m (drop 0 b.buf)) (omega arith)
        ∙ two_pieces h (b.capacity - b.r + k) (omega arith) (omega (arith, h.front)))

  partial_result : write_to_fd (pos n) (pos k) b ≡ some (take (n + k) q, pos k, kept)
  partial_result =
      let first_zero : (n == 0) ≡ false = ground arith in
      let first_all : ltb n n ≡ false = ground arith in
      let second_zero : (k == 0) ≡ false = ground arith in
      let split : leb (add_size b.r b.size) b.capacity ≡ false =
        ground (arith, h.fits, h.front, h.small) in
      let left : sub_size b.size n ≡ length q - n = omega (arith, h.count, h.fits, h.small) in
      let short : ltb k (length q - n) ≡ true = ground arith in
      let shape : take n (drop b.r b.buf) ++ take k (take (length q - n) (drop 0 b.buf))
          ≡ take (n + k) q =
        ap (λ t. take n (drop b.r b.buf) ++ t)
          (take-take k (length q - n) (drop 0 b.buf) (omega arith))
        ∙ all_sent in
      unfold write_to_fd in
      rw (write_to_fd, straight_cut h, copied h, first_zero)
        (rw (straight_cut h, cut, first_all, split)
          (rw (left, second_copied, second_zero)
            (rw (straight_cut h, cut, left, short) (ap (λ t. some (t, pos k, kept)) shape))))

  too_many : ¬ Holds kept (drop (n + k) q)
  too_many held =
      let count = held.count in omega (arith, length-drop (n + k) q, h.count, h.fits, h.small)

-- On a buffer that holds a queue in two pieces: if the first `write` takes the whole first piece and
-- the second one some of the second piece but not all of it, then what goes out are the first bytes of the queue,
-- but the new size forgets the first piece: the buffer does not hold what is left of the queue.
pub write_to_fd_partial :
    {b : CircularBuffer} {q : Bytes}
    → Holds b q
    → (n k : ℕ) → b.capacity < b.r + b.size
    → n ≡ b.capacity - b.r
    → n ≢ 0
    → k ≢ 0
    → k < length q - n
    → (b' : CircularBuffer) × (write_to_fd (pos n) (pos k) b ≡ some (take (n + k) q, pos k, b'))
      × ¬ Holds b' (drop (n + k) q)
write_to_fd_partial {b} h n k pieces whole ne₁ ne₂ lt = (
  kept h n k pieces whole ne₁ ne₂ lt,
  partial_result h n k pieces whole ne₁ ne₂ lt,
  too_many h n k pieces whole ne₁ ne₂ lt,
)
